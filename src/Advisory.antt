-- ===== src/Advisory.antt =====
-- providers/carla-viss-kuksa/src/carla_viss_kuksa_provider/advisory.py: the policy on the two typed
-- advisories. `Endpoint` has the table of endpoints, `Request` and `Status` the validation of the two
-- kinds of message, `Policy` the class `AdvisoryPolicy`; the modules below `Policy` prove what holds.
mod Tests
pub mod Endpoint
pub mod Request
pub mod Status
pub mod Policy
