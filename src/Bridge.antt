-- ===== src/Bridge.antt =====
-- providers/carla-viss-kuksa/src/carla_viss_kuksa_provider/bridge.py: the VISS side of the provider.
-- `Signal` has its types and converters, `Snapshot` the parsing of messages, `State` the class
-- `BridgeState`; the other modules prove what holds of them.
mod Tests
pub mod Signal
pub mod Snapshot
pub mod State
