-- ===== src/Bridge/State/Available.antt =====
-- When `BridgeState` (bridge.py) has values in the sink after a call that returned.
use aos_vehicle_platform.Prelude.{
  ℕ, String, ◌≡◌, false, ◌⊎◌, inl, inr, none, arith, nat_eq, Result, ok, err, Result-cases,
  Option-cases, value_error,
}
use aos_vehicle_platform.Python.{Library}
use aos_vehicle_platform.Bridge.Snapshot.{Snapshot, parse_snapshot}
use aos_vehicle_platform.Bridge.State.{
  TelemetrySink, Bridge, mark_unavailable, tick, publish_frame, withdraw, complete_frame,
  handle_frame, handle_message,
}

module _ (K : TelemetrySink) where
  pub tick-eq_of_false :
      (now : ℕ) (b : Bridge K.State) → (tick K now b).0 ≡ ok false → (tick K now b).1 ≡ b
  unfolding tick mark_unavailable
  tick-eq_of_false now b h = ground arith

  -- The values are there, or the frame was not complete.
  abbrev pub IsShownOr : Snapshot → Bridge K.State → Type 0
  IsShownOr s b = (b.unavailable ≡ false) ⊎ (s.complete ≡ false) ⊎ (s.source_timestamp ≡ none)

  publish_frame-shown :
      (now : ℕ) (snapshot s : Snapshot) (b : Bridge K.State)
      → (publish_frame K now snapshot b).0 ≡ ok s
      → (publish_frame K now snapshot b).1.unavailable ≡ false
  unfolding publish_frame
  publish_frame-shown now snapshot s b h = ground arith

  withdraw-ok :
      (r : Result Snapshot) (s : Snapshot) (b : Bridge K.State)
      → (withdraw K r b).0 ≡ ok s
      → r ≡ ok s
  unfolding withdraw
  withdraw-ok r s b h = ground arith

  complete_frame-shown :
      (now t : ℕ) (snapshot s : Snapshot) (b : Bridge K.State)
      → (complete_frame K now t snapshot b).0 ≡ ok s
      → s.repeated ≡ false
      → (complete_frame K now t snapshot b).1.unavailable ≡ false
  unfolding complete_frame
  complete_frame-shown now t snapshot s b h n = ground (
    arith,
    publish_frame-shown now snapshot s b,
    withdraw-ok (err (value_error "VISS source frame is not monotonic: SAME_TIMESTAMP_CHANGED")) s
        b,
    withdraw-ok (err (value_error "VISS source frame is not monotonic: TIME_REGRESSION")) s b,
  )

  handle_frame-shown :
      (now : ℕ) (snapshot s : Snapshot) (b : Bridge K.State)
      → (handle_frame K now snapshot b).0 ≡ ok s
      → s.repeated ≡ false
      → IsShownOr s (handle_frame K now snapshot b).1
  unfolding handle_frame
  handle_frame-shown now snapshot s b h n = elim (Option-cases snapshot.source_timestamp) [
    | inl untimed ↦
        ground (arith, untimed, publish_frame-shown now snapshot s b, withdraw-ok (ok snapshot) s b)
    | inr (t, timed) ↦ ground (
      arith,
      timed,
      publish_frame-shown now snapshot s b,
      withdraw-ok (ok snapshot) s b,
      complete_frame-shown now t snapshot s b,
    )
  ]

  pub handle_message-shown :
      (py : Library) (now : ℕ) (raw id : String) (s : Snapshot) (b : Bridge K.State)
      → (handle_message K py now raw id b).0 ≡ ok s
      → s.repeated ≡ false
      → IsShownOr s (handle_message K py now raw id b).1
  unfolding handle_message
  handle_message-shown py now raw id s b h n =
      elim (Result-cases (parse_snapshot py raw id b.signals)) [
        | inr (e, bad) ↦ absurd (ground arith)
        | inl (snapshot, good) ↦
            rw (good, handle_message)
              (handle_frame-shown now snapshot s b (rw (good, handle_message) at h) n)
      ]
