-- ===== src/Bridge/State/Frames.antt =====
-- `BridgeState.handle_message` and `tick` of bridge.py, one call at a time.
use aos_vehicle_platform.Prelude.{
  ◌↔◌, ℕ, ◌-◌, ◌<◌, String, ◌≡◌, Bool, true, false, ◌⊎◌, Option, none, some, arith, nat_eq, ok,
  Result-cases, inl, inr, sym, ap, ◌∙◌, subst,
}
use aos_vehicle_platform.Python.{Library}
use aos_vehicle_platform.Bridge.Snapshot.{
  Snapshot, Values, cleared, parse_snapshot, parse_snapshot-repeated,
}
use aos_vehicle_platform.Bridge.Snapshot.Complete.{parse_snapshot-complete}
use aos_vehicle_platform.Bridge.State.{
  TelemetrySink, Bridge, mark_unavailable, tick, publish_frame, withdraw, handle_frame,
  handle_message,
}

module _ (K : TelemetrySink) where
  -- The frame is new: its source timestamp is above that of the frame before it.
  abbrev pub IsAfter : ℕ → Option ℕ → Type 0
  IsAfter t none = Unit
  IsAfter t (some last) = last < t

  -- The values went to the sink, at `now`, with the source timestamp `t`.
  abbrev pub IsPublished : ℕ → ℕ → Values → Bridge K.State → Bridge K.State → Type 0
  IsPublished now t vs b b' =
      ((K.publish vs b.sink).0 ≡ ok tt)
      × ((K.publish vs b.sink).1 ≡ b'.sink)
      × (b'.last_source_timestamp ≡ some t)
      × (b'.last_source_values ≡ some vs)
      × IsAfter t b.last_source_timestamp
      × (b'.last_publish_at ≡ some now)
      × (b'.unavailable ≡ false)

  handle_frame-IsPublished :
      (now t : ℕ) (s r : Snapshot) (b : Bridge K.State)
      → s.source_timestamp ≡ some t
      → b.require_complete_frames ≡ true
      → (handle_frame K now s b).0 ≡ ok r
      → s.complete ≡ true
      → r.repeated ≡ false
      → (r ≡ s) × IsPublished now t s.values b (handle_frame K now s b).1
  unfolding handle_frame publish_frame withdraw
  handle_frame-IsPublished now t s r b e strict h full new = ground arith

  handle_frame-complete :
      (now : ℕ) (s r : Snapshot) (b : Bridge K.State)
      → (handle_frame K now s b).0 ≡ ok r
      → r.complete ≡ s.complete
  unfolding handle_frame publish_frame withdraw
  handle_frame-complete now s r b h = ground arith

  IsPublished-of_same :
      (now t : ℕ) (s r : Snapshot) (b b' : Bridge K.State)
      → r ≡ s
      → s.source_timestamp ≡ some t
      → IsPublished now t s.values b b'
      → (u : ℕ) × (r.source_timestamp ≡ some u) × IsPublished now u r.values b b'
  IsPublished-of_same now t s r b b' same e p =
      subst
        (λ (x : Snapshot).
          (u : ℕ) × (x.source_timestamp ≡ some u) × IsPublished now u x.values b b')
        (sym same) (t, e, p)

  -- Of a bridge that requires complete frames: a message that is handled with a complete snapshot
  -- which is no repetition publishes that snapshot's values. Its source timestamp is above the last
  -- one, and becomes the last one; the age starts at `now`, and the bridge is available.
  pub handle_message-IsPublished :
      (py : Library) (now : ℕ) (raw id : String) (r : Snapshot) (b : Bridge K.State)
      → b.require_complete_frames ≡ true
      → (handle_message K py now raw id b).0 ≡ ok r
      → r.complete ≡ true
      → r.repeated ≡ false
      → (t : ℕ) × (r.source_timestamp ≡ some t)
        × IsPublished now t r.values b (handle_message K py now raw id b).1
  unfolding handle_message
  handle_message-IsPublished py now raw id r b strict h full new =
      elim (Result-cases (parse_snapshot py raw id b.signals)) [
        | inr (e, failed) ↦ absurd (ground arith)
        | inl (s, parsed) ↦
            let h' : (handle_frame K now s b).0 ≡ ok r = rw (parsed, handle_message) at h in
            let full' : s.complete ≡ true = sym (handle_frame-complete now s r b h') ∙ full in
            let (t, e, _) = parse_snapshot-complete py raw id b.signals s parsed full' in
            let (same, p) = handle_frame-IsPublished now t s r b e strict h' full' new in
            rw (parsed, handle_message)
              (IsPublished-of_same now t s r b (handle_frame K now s b).1 same e p)
      ]

  -- Such a message is read as the snapshot that the call returns.
  pub handle_message-parsed :
      (py : Library) (now : ℕ) (raw id : String) (r : Snapshot) (b : Bridge K.State)
      → b.require_complete_frames ≡ true
      → (handle_message K py now raw id b).0 ≡ ok r
      → r.complete ≡ true
      → r.repeated ≡ false
      → parse_snapshot py raw id b.signals ≡ ok r
  unfolding handle_message
  handle_message-parsed py now raw id r b strict h full new =
      elim (Result-cases (parse_snapshot py raw id b.signals)) [
        | inr (e, failed) ↦ absurd (ground arith)
        | inl (s, parsed) ↦
            let h' : (handle_frame K now s b).0 ≡ ok r = rw (parsed, handle_message) at h in
            let full' : s.complete ≡ true = sym (handle_frame-complete now s r b h') ∙ full in
            let (t, e, _) = parse_snapshot-complete py raw id b.signals s parsed full' in
            let (same, _) = handle_frame-IsPublished now t s r b e strict h' full' new in
            parsed ∙ ap ok (sym same)
      ]

  -- A withdrawal that was not done before clears the values at the sink.
  pub mark_unavailable-cleared :
      (b : Bridge K.State)
      → (mark_unavailable K b).0 ≡ ok true
      → ((K.publish (cleared b.signals) b.sink).0 ≡ ok tt)
        × ((K.publish (cleared b.signals) b.sink).1 ≡ (mark_unavailable K b).1.sink)
  unfolding mark_unavailable
  mark_unavailable-cleared b h = ground arith

  handle_frame-repeated :
      (now : ℕ) (s r : Snapshot) (b : Bridge K.State)
      → s.repeated ≡ false
      → (handle_frame K now s b).0 ≡ ok r
      → r.repeated ≡ true
      → ((handle_frame K now s b).1 ≡ b) × (r.source_timestamp ≡ b.last_source_timestamp)
  unfolding handle_frame publish_frame withdraw
  handle_frame-repeated now s r b first h again = ground arith

  -- A message that is handled as a repetition has the last source timestamp, and leaves the bridge
  -- as it was, its sink and its age included.
  pub handle_message-repeated :
      (py : Library) (now : ℕ) (raw id : String) (r : Snapshot) (b : Bridge K.State)
      → (handle_message K py now raw id b).0 ≡ ok r
      → r.repeated ≡ true
      → ((handle_message K py now raw id b).1 ≡ b) × (r.source_timestamp ≡ b.last_source_timestamp)
  unfolding handle_message
  handle_message-repeated py now raw id r b h again =
      elim (Result-cases (parse_snapshot py raw id b.signals)) [
        | inr (e, failed) ↦ absurd (ground arith)
        | inl (s, parsed) ↦
            rw (parsed, handle_message)
              (handle_frame-repeated now s r b (parse_snapshot-repeated py raw id b.signals parsed)
                (rw (parsed, handle_message) at h) again)
      ]

  handle_frame_cases :
      (now : ℕ) (s : Snapshot) (b : Bridge K.State)
      → ((handle_frame K now s b).1 ≡ b)
        ⊎ ((handle_frame K now s b).1 ≡ (mark_unavailable K b).1)
        ⊎ ((handle_frame K now s b).1 ≡ (publish_frame K now s b).1)
  unfolding handle_frame withdraw
  handle_frame_cases now s b = ground arith

  -- The ways in which a message changes the bridge.
  pub handle_message_cases :
      (py : Library) (now : ℕ) (raw id : String) (b : Bridge K.State)
      → ((handle_message K py now raw id b).1 ≡ b)
        ⊎ ((handle_message K py now raw id b).1 ≡ (mark_unavailable K b).1)
        ⊎ ((s : Snapshot) × ((handle_message K py now raw id b).1 ≡ (publish_frame K now s b).1))
  unfolding handle_message
  handle_message_cases py now raw id b = elim (Result-cases (parse_snapshot py raw id b.signals)) [
    | inr (e, failed) ↦ inl (rw (failed, handle_message))
    | inl (s, parsed) ↦ elim (handle_frame_cases now s b) [
      | inl same ↦ inl (rw (parsed, handle_message) same)
      | inr (inl marked) ↦ inr (inl (rw (parsed, handle_message) marked))
      | inr (inr published) ↦ inr (inr (s, rw (parsed, handle_message) published))
    ]
  ]

  -- After `tick` returns at `now`, the values are withdrawn, or none was ever published, or the last
  -- publication is younger than the freshness timeout. It returns true if and only if it withdraws
  -- values that were available.
  pub tick_fails_safe :
      (now : ℕ) (b : Bridge K.State) (changed : Bool)
      → (tick K now b).0 ≡ ok changed
      → (((tick K now b).1.unavailable ≡ true)
          ⊎ (b.last_publish_at ≡ none)
          ⊎ ((at : ℕ) × (b.last_publish_at ≡ some at) × (now - at < b.freshness_timeout)))
        × ((changed ≡ true) ↔ ((b.unavailable ≡ false) × ((tick K now b).1.unavailable ≡ true)))
  unfolding tick mark_unavailable
  tick_fails_safe now b changed h = ground arith
