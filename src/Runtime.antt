-- ===== src/Runtime.antt =====
-- runtime.py: what `run` does with the bridge and the readiness tracker in a session, for a release
-- payload (`readiness is not None`). The advisory transport takes its messages before they come here
-- (`continue`), and its exceptions come in as failures.
mod Tests
pub mod Consistent
pub mod Configuration
pub mod Loaded
pub mod Sink
use aos_vehicle_platform.Prelude.{
  ℕ, String, Bool, true, false, Option, none, some, List, [], ◌∷◌, Result, ok, err, Exception,
  kuksa_unavailable, provider_credential_unavailable, if◌then◌else◌,
}
use aos_vehicle_platform.Python.{Library}
use aos_vehicle_platform.Bridge.Snapshot.{Snapshot}
use aos_vehicle_platform.Bridge.State.{
  TelemetrySink, Bridge, mark_unavailable, tick, handle_message,
}
use aos_vehicle_platform.Readiness.Identity.{Source}
use aos_vehicle_platform.Readiness.{
  Tracker, authenticating, authentication_failed, dependencies, observe, stale, disconnected,
}

pub record Session (S : Type 0) : Type 0 where
  pub bridge : Bridge S
  pub readiness : Tracker
  pub viss_authenticated : Bool

-- What `run` has from its configuration.
pub record Setup : Type 0 where
  -- `_selected_source_identity(configuration)`
  pub source : Source
  pub server_authenticated_test_only : Bool

-- `isinstance(error, (KuksaUnavailable, ProviderCredentialUnavailable))`, and whether the credential
-- is ready then.
unfoldable pub credential_after : Exception → Option Bool
credential_after kuksa_unavailable = some true
credential_after provider_credential_unavailable = some false
credential_after e = none

module _ (C : Setup) where
  -- The tracker in `except Exception as error`.
  unfoldable pub readiness_after : Option Bool → Bool → Tracker → Tracker
  readiness_after (some credential) true t = dependencies credential false true (some C.source) t
  readiness_after (some credential) false t = dependencies credential false false none t
  readiness_after none true t = disconnected t
  readiness_after none false t =
      if C.server_authenticated_test_only then disconnected t else authentication_failed t

  module _ (K : TelemetrySink) (close : K.State → K.State) where
    -- `except Exception as error`. The result of `mark_unavailable` is only logged.
    unfoldable pub session_failed : Exception → Session K.State → Session K.State
    unfolding credential_after readiness_after
    session_failed error s =
        let b = (mark_unavailable K s.bridge).1 in
        record s {
          bridge = record b { sink = close b.sink };
          readiness = readiness_after (credential_after error) s.viss_authenticated s.readiness;
        }

    -- `readiness.authenticating()` before an attempt to connect.
    unfoldable pub connecting : Session K.State → Session K.State
    connecting s = record s { viss_authenticated = false; readiness = authenticating s.readiness }

    -- The subscription was answered.
    unfoldable pub connected : Session K.State → Session K.State
    connected s = record s {
      viss_authenticated = true;
      readiness = dependencies true true true (some C.source) s.readiness;
    }

    after_mark : Result Bool → Session K.State → Session K.State
    unfolding session_failed
    after_mark (ok changed) s = record s { readiness = disconnected s.readiness }
    after_mark (err error) s = session_failed error s

    -- `apply_unavailable_request` inside a session, when the event is set.
    unfoldable pub apply_unavailable_request : Session K.State → Session K.State
    unfolding after_mark
    apply_unavailable_request s =
        let (r, b) = mark_unavailable K s.bridge in after_mark r (record s { bridge = b })

    after_tick : Result Bool → Session K.State → Session K.State
    unfolding session_failed
    after_tick (ok true) s = record s { readiness = stale s.readiness }
    after_tick (ok false) s = s
    after_tick (err error) s = session_failed error s

    -- `if bridge.tick(): readiness.stale()`
    unfoldable pub check_age : ℕ → Session K.State → Session K.State
    unfolding after_tick
    check_age now s = let (r, b) = tick K now s.bridge in after_tick r (record s { bridge = b })

    after_message : ℕ → Result Snapshot → Session K.State → Session K.State
    unfolding check_age session_failed
    after_message now (ok snapshot) s =
        if snapshot.repeated
        then check_age now s
        else record s { readiness = (observe snapshot s.readiness).1 }
    after_message now (err error) s = session_failed error s

    module _ (py : Library) where
      -- A message that the transport did not consume; `later` is the clock of the check after it.
      unfoldable pub receive : ℕ → ℕ → String → String → Session K.State → Session K.State
      unfolding after_message
      receive now later raw subscription_id s =
          let (r, b) = handle_message K py now raw subscription_id s.bridge in
          after_message later r (record s { bridge = b })

-- What happens in the loops of `run`.
pub data Event : Type 0 where
  on_connecting on_connected on_unavailable_request : Event
  on_timeout : ℕ → Event
  on_message : ℕ → ℕ → String → String → Event
  on_failure : Exception → Event

module _ (C : Setup) (K : TelemetrySink) (close : K.State → K.State) (py : Library) where
  unfoldable pub step : Event → Session K.State → Session K.State
  step on_connecting s = connecting C K close s
  step on_connected s = connected C K close s
  step on_unavailable_request s = apply_unavailable_request C K close s
  step (on_timeout now) s = check_age C K close now s
  step (on_message now later raw id) s = receive C K close py now later raw id s
  step (on_failure error) s = session_failed C K close error s

  unfoldable pub steps : List Event → Session K.State → Session K.State
  unfolding step
  steps [] s = s
  steps (e ∷ es) s = steps es (step e s)
