-- ===== src/Bridge/State/Monotone.antt =====
-- The source timestamps of the frames that a strict `BridgeState` (bridge.py) publishes only rise.
use aos_vehicle_platform.Prelude.{
  ℕ, ◌≤◌, String, ◌≡◌, true, ◌∙◌, inl, inr, Option, none, some, List, [], ◌∷◌, arith, nat_eq,
  Result-cases,
}
use aos_vehicle_platform.Python.{Library}
use aos_vehicle_platform.Bridge.Snapshot.{Snapshot, parse_snapshot}
use aos_vehicle_platform.Bridge.State.{
  TelemetrySink, Bridge, mark_unavailable, tick, publish_frame, withdraw, handle_frame,
  handle_message,
}
use aos_vehicle_platform.Bridge.State.Retained.{
  Call, message, clock, unavailable, call, calls, call-Keeps,
}

-- A timestamp that was there stays or rises.
abbrev pub Rises : Option ℕ → Option ℕ → Type 0
Rises none new = Unit
Rises (some t) none = ⊥
Rises (some t) (some u) = t ≤ u

pub Rises-refl : (o : Option ℕ) → Rises o o
Rises-refl none = tt
Rises-refl (some t) = omega arith

pub Rises-trans : (a b c : Option ℕ) → Rises a b → Rises b c → Rises a c
Rises-trans none b c h k = tt
Rises-trans (some a) none c h k = absurd h
Rises-trans (some a) (some b) none h k = k
Rises-trans (some a) (some b) (some c) h k = omega arith

module _ (K : TelemetrySink) where
  abbrev BridgeRises : Bridge K.State → Bridge K.State → Type 0
  BridgeRises b b' = Rises b.last_source_timestamp b'.last_source_timestamp

  mark_unavailable-Rises : (b : Bridge K.State) → BridgeRises b (mark_unavailable K b).1
  unfolding mark_unavailable
  mark_unavailable-Rises b = ground (arith, Rises-refl b.last_source_timestamp)

  tick-Rises : (now : ℕ) (b : Bridge K.State) → BridgeRises b (tick K now b).1
  unfolding tick
  tick-Rises now b = ground (arith, mark_unavailable-Rises b, Rises-refl b.last_source_timestamp)

  handle_frame-Rises :
      (now : ℕ) (s : Snapshot) (b : Bridge K.State)
      → b.require_complete_frames ≡ true
      → BridgeRises b (handle_frame K now s b).1
  unfolding handle_frame publish_frame withdraw
  handle_frame-Rises now s b strict =
      ground (arith, mark_unavailable-Rises b, Rises-refl b.last_source_timestamp)

  module _ (py : Library) where
    handle_message-Rises :
        (now : ℕ) (raw id : String) (b : Bridge K.State)
        → b.require_complete_frames ≡ true
        → BridgeRises b (handle_message K py now raw id b).1
    unfolding handle_message
    handle_message-Rises now raw id b strict =
        elim (Result-cases (parse_snapshot py raw id b.signals)) [
          | inl (s, parsed) ↦ rw (parsed, handle_message) (handle_frame-Rises now s b strict)
          | inr (e, failed) ↦ rw (failed, handle_message) (Rises-refl b.last_source_timestamp)
        ]

    call-Rises :
        (c : Call) (b : Bridge K.State)
        → b.require_complete_frames ≡ true
        → BridgeRises b (call K py c b)
    unfolding call
    call-Rises (message now raw id) b strict = handle_message-Rises now raw id b strict
    call-Rises (clock now) b strict = tick-Rises now b
    call-Rises unavailable b strict = mark_unavailable-Rises b

    -- Over any calls on a bridge that requires complete frames, for any sink: the last source
    -- timestamp never falls, and is never forgotten.
    pub calls-Rises :
        (cs : List Call) (b : Bridge K.State)
        → b.require_complete_frames ≡ true
        → Rises b.last_source_timestamp (calls K py cs b).last_source_timestamp
    unfolding calls
    calls-Rises [] b strict = Rises-refl b.last_source_timestamp
    calls-Rises (c ∷ cs) b strict =
        let b' = call K py c b in
        let (_, _, same) = call-Keeps K py c b in
        Rises-trans b.last_source_timestamp b'.last_source_timestamp _ (call-Rises c b strict)
          (calls-Rises cs b' (same ∙ strict))
