-- ===== src/Bridge/State/Retained.antt =====
-- The last publication that returned, over any sequence of calls of `BridgeState` (bridge.py).
use aos_vehicle_platform.Prelude.{
  ℕ, String, ◌≡◌, ◌≢◌, refl, Bool, true, false, inl, inr, Option, none, some, List, [], ◌∷◌, arith,
  Result, ok, err, Result-cases, Option-cases, value_error, ◌==◌, nat_eq, if◌then◌else◌, sym, ap,
  ◌∙◌, subst,
}
use aos_vehicle_platform.Python.{Library}
use aos_vehicle_platform.Bridge.Signal.{SignalSpec}
use aos_vehicle_platform.Bridge.Snapshot.{Snapshot, Values, cleared, parse_snapshot}
use aos_vehicle_platform.Bridge.State.{
  TelemetrySink, Bridge, new_bridge, mark_unavailable, tick, publish_frame, withdraw,
  complete_frame, handle_frame, handle_message,
}
use aos_vehicle_platform.Bridge.State.Frames.{handle_message_cases}

-- A call, with the reading of the clock that it takes.
pub data Call : Type 0 where
  message : ℕ → String → String → Call
  clock : ℕ → Call
  unavailable : Call

-- What is recorded of a sink. A publication that returns replaces it, and one that raises leaves it.
record Records (K : TelemetrySink) : Type 0 where
  retained : K.State → Option Values
  publish_ok :
      (vs : Values) (s : K.State)
      → (K.publish vs s).0 ≡ ok tt
      → retained (K.publish vs s).1 ≡ some vs
  publish_err :
      (vs : Values) (s : K.State)
      → (K.publish vs s).0 ≢ ok tt
      → retained (K.publish vs s).1 ≡ retained s

module _ (K : TelemetrySink) (py : Library) where
  -- Exceptions end the call, and the caller goes on.
  unfoldable pub call : Call → Bridge K.State → Bridge K.State
  call (message now raw id) b = (handle_message K py now raw id b).1
  call (clock now) b = (tick K now b).1
  call unavailable b = (mark_unavailable K b).1

  unfoldable pub calls : List Call → Bridge K.State → Bridge K.State
  unfolding call
  calls [] b = b
  calls (c ∷ cs) b = calls cs (call c b)

-- What is shown, of an unavailable bridge and of one with these last values.
abbrev pub Shows : Bool → Option Values → Values → Option Values → Type 0
Shows true last none_available shown = shown ≡ some none_available
Shows false none none_available shown = shown ≡ none
Shows false (some vs) none_available shown = shown ≡ some vs

module _ (K : TelemetrySink) (A : Records K) where
  abbrev IsShown : Bridge K.State → Type 0
  IsShown b = Shows b.unavailable b.last_source_values (cleared b.signals) (A.retained b.sink)

  mark_unavailable-IsShown : (b : Bridge K.State) → IsShown b → IsShown (mark_unavailable K b).1
  unfolding mark_unavailable
  mark_unavailable-IsShown b i =
      ground
        (arith, A.publish_ok (cleared b.signals) b.sink, A.publish_err (cleared b.signals) b.sink)

  publish_frame-IsShown :
      (now : ℕ) (s : Snapshot) (b : Bridge K.State)
      → IsShown b
      → IsShown (publish_frame K now s b).1
  unfolding publish_frame
  publish_frame-IsShown now s b i =
      ground (arith, A.publish_ok s.values b.sink, A.publish_err s.values b.sink)

  tick-IsShown : (now : ℕ) (b : Bridge K.State) → IsShown b → IsShown (tick K now b).1
  unfolding tick
  tick-IsShown now b i = ground (arith, mark_unavailable-IsShown b i)

  module _ (py : Library) where
    handle_message-IsShown :
        (now : ℕ) (raw id : String) (b : Bridge K.State)
        → IsShown b
        → IsShown (handle_message K py now raw id b).1
    handle_message-IsShown now raw id b i = elim (handle_message_cases K py now raw id b) [
      | inl same ↦ subst IsShown (sym same) i
      | inr (inl marked) ↦ subst IsShown (sym marked) (mark_unavailable-IsShown b i)
      | inr (inr (s, published)) ↦ subst IsShown (sym published) (publish_frame-IsShown now s b i)
    ]

    call-IsShown : (c : Call) (b : Bridge K.State) → IsShown b → IsShown (call K py c b)
    unfolding call
    call-IsShown (message now raw id) b i = handle_message-IsShown now raw id b i
    call-IsShown (clock now) b i = tick-IsShown now b i
    call-IsShown unavailable b i = mark_unavailable-IsShown b i

    calls-IsShown : (cs : List Call) (b : Bridge K.State) → IsShown b → IsShown (calls K py cs b)
    unfolding calls
    calls-IsShown [] b i = i
    calls-IsShown (c ∷ cs) b i = calls-IsShown cs (call K py c b) (call-IsShown c b i)

-- The configuration never changes.
module _ (K : TelemetrySink) where
  abbrev Keeps : Bridge K.State → Bridge K.State → Type 0
  Keeps b b' =
      (b'.signals ≡ b.signals)
      × (b'.freshness_timeout ≡ b.freshness_timeout)
      × (b'.require_complete_frames ≡ b.require_complete_frames)

  mark_unavailable-Keeps : (b : Bridge K.State) → Keeps b (mark_unavailable K b).1
  unfolding mark_unavailable
  mark_unavailable-Keeps b = ground arith

  tick-Keeps : (now : ℕ) (b : Bridge K.State) → Keeps b (tick K now b).1
  unfolding tick
  tick-Keeps now b = ground (arith, mark_unavailable-Keeps b)

  publish_frame-Keeps :
      (now : ℕ) (s : Snapshot) (b : Bridge K.State) → Keeps b (publish_frame K now s b).1
  unfolding publish_frame
  publish_frame-Keeps now s b = ground arith

  module _ (py : Library) where
    pub call-Keeps : (c : Call) (b : Bridge K.State) → Keeps b (call K py c b)
    unfolding call
    call-Keeps (message now raw id) b = elim (handle_message_cases K py now raw id b) [
      | inl same ↦ subst (Keeps b) (sym same) (refl, refl, refl)
      | inr (inl marked) ↦ subst (Keeps b) (sym marked) (mark_unavailable-Keeps b)
      | inr (inr (s, published)) ↦ subst (Keeps b) (sym published) (publish_frame-Keeps now s b)
    ]
    call-Keeps (clock now) b = tick-Keeps now b
    call-Keeps unavailable b = mark_unavailable-Keeps b

    pub calls-Keeps : (cs : List Call) (b : Bridge K.State) → Keeps b (calls K py cs b)
    unfolding calls
    calls-Keeps [] b = (refl, refl, refl)
    calls-Keeps (c ∷ cs) b =
        let (e, f, g) = call-Keeps c b in
        let (e', f', g') = calls-Keeps cs (call K py c b) in (e' ∙ e, f' ∙ f, g' ∙ g)

-- A publication by the sink itself, and the values if it returned.
unfoldable pub record_result : Values → Result (Unit {0}) → Option Values → Option Values
record_result vs (ok u) last = some vs
record_result vs (err e) last = last

-- The sink, with the values of its last publication that returned beside its state.
abbrev pub logged : TelemetrySink → TelemetrySink
logged K = record {
  State = K.State × Option Values;
  publish = λ vs s.
      ((K.publish vs s.0).0, ((K.publish vs s.0).1, record_result vs (K.publish vs s.0).0 s.1));
}

record_result_err :
    (vs : Values) (r : Result (Unit {0})) (last : Option Values)
    → r ≢ ok tt
    → record_result vs r last ≡ last
unfolding record_result
record_result_err vs (ok u) last h = absurd (h refl)
record_result_err vs (err e) last h = refl

logged-Records : (K : TelemetrySink) → Records (logged K)
unfolding record_result
logged-Records K = record {
  retained = λ s. s.1;
  publish_ok = λ vs s h. rw h refl;
  publish_err = λ vs s h. record_result_err vs (K.publish vs s.0).0 s.1 h;
}

-- A bridge without the record.
abbrev pub without_log : {S : Type 0} → Bridge (S × Option Values) → Bridge S
without_log b = record {
  sink = b.sink.0;
  freshness_timeout = b.freshness_timeout;
  signals = b.signals;
  require_complete_frames = b.require_complete_frames;
  last_publish_at = b.last_publish_at;
  last_source_timestamp = b.last_source_timestamp;
  last_source_values = b.last_source_values;
  unavailable = b.unavailable;
}

module _ (K : TelemetrySink) where
  -- A call does the same with the record as without it.
  abbrev Same :
      {A : Type 0}
      → Result A × Bridge (K.State × Option Values)
      → Result A × Bridge K.State
      → Type 0
  Same c d = (c.0 ≡ d.0) × (without_log c.1 ≡ d.1)

  mark_unavailable-logged :
      (b : Bridge (K.State × Option Values))
      → Same (mark_unavailable (logged K) b) (mark_unavailable K (without_log b))
  unfolding mark_unavailable
  mark_unavailable-logged b = ground arith

  publish_frame-logged :
      (now : ℕ) (s : Snapshot) (b : Bridge (K.State × Option Values))
      → Same (publish_frame (logged K) now s b) (publish_frame K now s (without_log b))
  unfolding publish_frame
  publish_frame-logged now s b = ground arith

  tick-logged :
      (now : ℕ) (b : Bridge (K.State × Option Values))
      → Same (tick (logged K) now b) (tick K now (without_log b))
  unfolding tick
  tick-logged now b = ground (arith, mark_unavailable-logged b)

  withdraw-logged :
      (r : Result Snapshot) (b : Bridge (K.State × Option Values))
      → Same (withdraw (logged K) r b) (withdraw K r (without_log b))
  unfolding withdraw
  withdraw-logged r b = ground (arith, mark_unavailable-logged b)

  complete_frame-logged :
      (now t : ℕ) (s : Snapshot) (b : Bridge (K.State × Option Values))
      → Same (complete_frame (logged K) now t s b) (complete_frame K now t s (without_log b))
  unfolding complete_frame
  complete_frame-logged now t s b = elim (Option-cases b.last_source_timestamp) [
    | inl first ↦ ground (arith, publish_frame-logged now s b)
    | inr (last, e) ↦ ground (
      arith,
      publish_frame-logged now s b,
      withdraw-logged
          (err (
            value_error (
              if t == last
              then "VISS source frame is not monotonic: SAME_TIMESTAMP_CHANGED"
              else "VISS source frame is not monotonic: TIME_REGRESSION")))
          b,
    )
  ]

  handle_frame-logged :
      (now : ℕ) (s : Snapshot) (b : Bridge (K.State × Option Values))
      → Same (handle_frame (logged K) now s b) (handle_frame K now s (without_log b))
  unfolding handle_frame
  handle_frame-logged now s b = elim (Option-cases s.source_timestamp) [
    | inl unstamped ↦ ground (arith, withdraw-logged (ok s) b, publish_frame-logged now s b)
    | inr (t, e) ↦ ground (
      arith,
      withdraw-logged (ok s) b,
      publish_frame-logged now s b,
      complete_frame-logged now t s b,
    )
  ]

  module _ (py : Library) where
    handle_message-logged :
        (now : ℕ) (raw id : String) (b : Bridge (K.State × Option Values))
        → Same
            (handle_message (logged K) py now raw id b)
            (handle_message K py now raw id (without_log b))
    unfolding handle_message
    handle_message-logged now raw id b = elim (Result-cases (parse_snapshot py raw id b.signals)) [
      | inl (s, e) ↦ rw (e, handle_message) (handle_frame-logged now s b)
      | inr (x, e) ↦ rw (e, handle_message) (refl, refl)
    ]

    call-logged :
        (c : Call) (b : Bridge (K.State × Option Values))
        → without_log (call (logged K) py c b) ≡ call K py c (without_log b)
    unfolding call
    call-logged (message now raw id) b = (handle_message-logged now raw id b).1
    call-logged (clock now) b = (tick-logged now b).1
    call-logged unavailable b = (mark_unavailable-logged b).1

    calls-logged :
        (cs : List Call) (b : Bridge (K.State × Option Values))
        → without_log (calls (logged K) py cs b) ≡ calls K py cs (without_log b)
    unfolding calls
    calls-logged [] b = refl
    calls-logged (c ∷ cs) b =
        calls-logged cs (call (logged K) py c b) ∙ ap (calls K py cs) (call-logged c b)

-- After any calls on a new bridge over any sink, of which the values of the last publication that
-- returned are recorded: while the bridge is unavailable, these are no value for any of its signals;
-- otherwise they are the values of the last frame published, if there was one. The record aside, the
-- bridge and its sink are as after the same calls without it.
pub calls_shown :
    (K : TelemetrySink) (py : Library) (cs : List Call) (s : K.State) (timeout : ℕ)
    (signals : List SignalSpec) (strict : Bool) (b : Bridge (K.State × Option Values))
    → new_bridge (logged K) (s, none) timeout signals strict ≡ ok b
    → Shows
        (calls (logged K) py cs b).unavailable
        (calls (logged K) py cs b).last_source_values
        (cleared signals)
        (calls (logged K) py cs b).sink.1
      × (without_log (calls (logged K) py cs b) ≡ calls K py cs (without_log b))
      × (new_bridge K s timeout signals strict ≡ ok (without_log b))
unfolding new_bridge logged-Records
calls_shown K py cs s timeout signals strict b h = (
  subst
      (λ sigs.
        Shows (calls (logged K) py cs b).unavailable (calls (logged K) py cs b).last_source_values
          (cleared sigs) (calls (logged K) py cs b).sink.1)
      (let (e, _, _) = calls-Keeps (logged K) py cs b in e ∙ ground arith)
      (calls-IsShown (logged K) (logged-Records K) py cs b (ground arith)),
  calls-logged K py cs b,
  ground arith,
)
