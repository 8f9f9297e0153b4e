-- ===== src/Runtime/Consistent.antt =====
-- The tracker's view and the bridge agree, through every session of `run` (runtime.py).
use aos_vehicle_platform.Prelude.{
  ℕ, ◌≡◌, ◌≢◌, refl, sym, subst, Bool, true, false, inl, inr, Option, none, some, List, [], ◌∷◌,
  arith, Result, ok, err, Exception, if◌then◌else◌, if-elim, Bool-cases,
}
use aos_vehicle_platform.Python.{Library}
use aos_vehicle_platform.Bridge.Snapshot.{Snapshot}
use aos_vehicle_platform.Bridge.State.{
  TelemetrySink, Bridge, mark_unavailable, tick, handle_message,
}
use aos_vehicle_platform.Bridge.State.Available.{tick-eq_of_false, IsShownOr, handle_message-shown}
use aos_vehicle_platform.Bridge.State.Frames.{handle_message-repeated}
use aos_vehicle_platform.Readiness.Identity.{Source}
use aos_vehicle_platform.Readiness.{
  Tracker, ready, view, is_no_reason, authenticating, authentication_failed, dependencies,
  dependencies_ready, observe, stale, disconnected,
}
use aos_vehicle_platform.Runtime.{
  Session, Setup, credential_after, readiness_after, session_failed, connecting, connected,
  after_mark, apply_unavailable_request, after_tick, check_age, after_message, receive, Event,
  on_connecting, on_connected, on_unavailable_request, on_timeout, on_message, on_failure, step,
  steps,
}

-- No reason is given: the view says READY.
abbrev IsReady : Tracker → Type 0
IsReady t = is_no_reason t.reason ≡ true

-- READY is said only while the values are in the sink and every dependency is ready.
abbrev IsConsistent : {S : Type 0} → Session S → Type 0
IsConsistent s =
    IsReady s.readiness → (s.bridge.unavailable ≡ false) × (dependencies_ready s.readiness ≡ true)

dependencies-not-IsReady :
    (credential kuksa mtls : Bool) (source : Option Source) (t : Tracker)
    → ¬ IsReady (dependencies credential kuksa mtls source t)
unfolding dependencies is_no_reason
dependencies-not-IsReady credential kuksa mtls source t h = ground arith

authenticating-not-IsReady : (t : Tracker) → ¬ IsReady (authenticating t)
unfolding authenticating is_no_reason
authenticating-not-IsReady t h = ground arith

disconnected-not-IsReady : (t : Tracker) → ¬ IsReady (disconnected t)
unfolding disconnected is_no_reason
disconnected-not-IsReady t h = ground arith

stale-not-IsReady : (t : Tracker) → ¬ IsReady (stale t)
unfolding stale is_no_reason
stale-not-IsReady t h = ground arith

failed-not-IsReady : (t : Tracker) → ¬ IsReady (authentication_failed t)
unfolding authentication_failed is_no_reason
failed-not-IsReady t h = ground arith

readiness_after-not-IsReady :
    (C : Setup) (credential : Option Bool) (authenticated : Bool) (t : Tracker)
    → ¬ IsReady (readiness_after C credential authenticated t)
unfolding readiness_after
readiness_after-not-IsReady C (some c) true t h =
    dependencies-not-IsReady c false true (some C.source) t h
readiness_after-not-IsReady C (some c) false t h = dependencies-not-IsReady c false false none t h
readiness_after-not-IsReady C none true t h = disconnected-not-IsReady t h
readiness_after-not-IsReady C none false t h =
    if-elim (λ (x : Tracker). ¬ IsReady x) C.server_authenticated_test_only
      (disconnected-not-IsReady t) (failed-not-IsReady t) h

-- `observe` leaves READY only for a complete frame, with all dependencies ready.
observe-IsReady :
    (snapshot : Snapshot) (t : Tracker)
    → (IsReady t → dependencies_ready t ≡ true)
    → IsReady (observe snapshot t).1
    → (snapshot.complete ≡ true)
      × (snapshot.source_timestamp ≢ none)
      × (dependencies_ready (observe snapshot t).1 ≡ true)
unfolding observe is_no_reason dependencies_ready
observe-IsReady snapshot t before h = (ground arith, (λ e. ground arith), ground arith)

module _ (C : Setup) (K : TelemetrySink) (close : K.State → K.State) where
  session_failed-not-IsReady :
      (error : Exception) (s : Session K.State)
      → ¬ IsReady (session_failed C K close error s).readiness
  unfolding session_failed
  session_failed-not-IsReady error s h =
      readiness_after-not-IsReady C (credential_after error) s.viss_authenticated s.readiness h

  session_failed-IsConsistent :
      (error : Exception) (s : Session K.State) → IsConsistent (session_failed C K close error s)
  session_failed-IsConsistent error s h = absurd (session_failed-not-IsReady error s h)

  after_mark-IsConsistent :
      (r : Result Bool) (s : Session K.State) → IsConsistent (after_mark C K close r s)
  unfolding after_mark
  after_mark-IsConsistent (ok changed) s h = absurd (disconnected-not-IsReady s.readiness h)
  after_mark-IsConsistent (err error) s h = session_failed-IsConsistent error s h

  after_tick-IsConsistent :
      (r : Result Bool) (s : Session K.State)
      → (r ≡ ok false → IsConsistent s)
      → IsConsistent (after_tick C K close r s)
  unfolding after_tick
  after_tick-IsConsistent (ok true) s c h = absurd (stale-not-IsReady s.readiness h)
  after_tick-IsConsistent (ok false) s c h = c refl h
  after_tick-IsConsistent (err error) s c h = session_failed-IsConsistent error s h

  check_age-IsConsistent :
      (now : ℕ) (s : Session K.State) → IsConsistent s → IsConsistent (check_age C K close now s)
  unfolding check_age
  check_age-IsConsistent now s c =
      after_tick-IsConsistent (tick K now s.bridge).0
        (record s { bridge = (tick K now s.bridge).1 })
        (λ e h.
          subst
            (λ (b : Bridge K.State).
              (b.unavailable ≡ false) × (dependencies_ready s.readiness ≡ true))
            (sym (tick-eq_of_false K now s.bridge e)) (c h))

  -- A frame that was observed.
  observed-IsConsistent :
      (snapshot : Snapshot) (s : Session K.State)
      → (IsReady s.readiness → dependencies_ready s.readiness ≡ true)
      → IsShownOr K snapshot s.bridge
      → IsConsistent (record s { readiness = (observe snapshot s.readiness).1 })
  observed-IsConsistent snapshot s before (inl there) h =
      let (_, _, d) = observe-IsReady snapshot s.readiness before h in (there, d)
  observed-IsConsistent snapshot s before (inr (inl partial)) h =
      let (full, _, _) = observe-IsReady snapshot s.readiness before h in absurd (cc)
  observed-IsConsistent snapshot s before (inr (inr untimed)) h =
      let (_, timed, _) = observe-IsReady snapshot s.readiness before h in absurd (timed untimed)

  after_message-IsConsistent :
      (later : ℕ) (r : Result Snapshot) (s : Session K.State) (b : Bridge K.State)
      → IsConsistent s
      → ((snapshot : Snapshot) → r ≡ ok snapshot → snapshot.repeated ≡ true → b ≡ s.bridge)
      → ((snapshot : Snapshot)
          → r ≡ ok snapshot
          → snapshot.repeated ≡ false
          → IsShownOr K snapshot b)
      → IsConsistent (after_message C K close later r (record s { bridge = b }))
  unfolding after_message
  after_message-IsConsistent later (err error) s b c same shown =
      session_failed-IsConsistent error (record s { bridge = b })
  after_message-IsConsistent later (ok snapshot) s b c same shown =
      let before : IsReady s.readiness → dependencies_ready s.readiness ≡ true = λ i. (c i).1 in
      elim (Bool-cases snapshot.repeated) [
        | inl again ↦
            let kept : IsConsistent (record s { bridge = b }) = λ i.
              subst
                (λ (x : Bridge K.State).
                  (x.unavailable ≡ false) × (dependencies_ready s.readiness ≡ true))
                (sym (same snapshot refl again)) (c i) in
            subst
              (λ x. IsConsistent (
                if x
                then check_age C K close later (record s { bridge = b })
                else record s { bridge = b; readiness = (observe snapshot s.readiness).1 }))
              (sym again) (check_age-IsConsistent later (record s { bridge = b }) kept)
        | inr new ↦
            subst
              (λ x. IsConsistent (
                if x
                then check_age C K close later (record s { bridge = b })
                else record s { bridge = b; readiness = (observe snapshot s.readiness).1 }))
              (sym new)
              (observed-IsConsistent snapshot (record s { bridge = b }) before
                (shown snapshot refl new))
      ]

  module _ (py : Library) where
    step-IsConsistent :
        (e : Event) (s : Session K.State) → IsConsistent s → IsConsistent (step C K close py e s)
    unfolding step connecting connected apply_unavailable_request receive
    step-IsConsistent on_connecting s c = λ h. absurd (authenticating-not-IsReady s.readiness h)
    step-IsConsistent on_connected s c =
        λ h. absurd (dependencies-not-IsReady true true true (some C.source) s.readiness h)
    step-IsConsistent on_unavailable_request s c =
        after_mark-IsConsistent (mark_unavailable K s.bridge).0
          (record s { bridge = (mark_unavailable K s.bridge).1 })
    step-IsConsistent (on_timeout now) s c = check_age-IsConsistent now s c
    step-IsConsistent (on_message now later raw id) s c =
        after_message-IsConsistent later (handle_message K py now raw id s.bridge).0 s
          (handle_message K py now raw id s.bridge).1 c
          (λ r e again. (handle_message-repeated K py now raw id r s.bridge e again).0)
          (λ r e new. handle_message-shown K py now raw id r s.bridge e new)
    step-IsConsistent (on_failure error) s c = session_failed-IsConsistent error s

    steps-IsConsistent :
        (es : List Event) (s : Session K.State)
        → IsConsistent s
        → IsConsistent (steps C K close py es s)
    unfolding steps
    steps-IsConsistent [] s c = c
    steps-IsConsistent (e ∷ es) s c =
        steps-IsConsistent es (step C K close py e s) (step-IsConsistent e s c)

    -- READY is never said of withdrawn values. From a state whose view is not READY, after any events
    -- of the loops of `run`, whatever the sink does: if the view says READY, then the bridge has not
    -- withdrawn its values, and every dependency is ready.
    pub steps-ready :
        (es : List Event) (s s' : Session K.State)
        → is_no_reason s.readiness.reason ≡ false
        → steps C K close py es s ≡ s'
        → (view s'.readiness).data_readiness ≡ ready
        → (s'.bridge.unavailable ≡ false) × (dependencies_ready s'.readiness ≡ true)
    unfolding view
    steps-ready es s s' fresh e h =
        let start : IsConsistent s = λ i. absurd (cc) in
        (subst IsConsistent e (steps-IsConsistent es s start)) (ground arith)
