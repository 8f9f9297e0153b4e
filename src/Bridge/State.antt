-- ===== src/Bridge/State.antt =====
-- bridge.py: the class `BridgeState`, over any `TelemetrySink`. A method takes the state to its
-- result, or the exception it raises, and the state it leaves. `now` is what `self._monotonic()`
-- returns where the method calls it, in microseconds.
pub mod Available
pub mod Frames
pub mod Retained
pub mod Monotone
use aos_vehicle_platform.Prelude.{ℕ, ◌-◌, ltb, leb, String, Bool, true, false, ◌&&◌, ◌||◌, Option}
use aos_vehicle_platform.Prelude.{
  none, some, List, [], ◌∷◌, Result, ok, err, value_error, ◌==◌, nat_eq,
}
use aos_vehicle_platform.Prelude.{option_eq, if◌then◌else◌, raise_if, ◌>>◌}
use aos_vehicle_platform.Prelude.Lists.{length}
use aos_vehicle_platform.Prelude.Dict.{lookup}
use aos_vehicle_platform.Prelude.{string_eq}
use aos_vehicle_platform.Python.{Library}
use aos_vehicle_platform.Bridge.Signal.{SignalSpec, SignalValue, signal_value_equals}
use aos_vehicle_platform.Bridge.Snapshot.{Values, Snapshot, cleared, parse_snapshot}

-- The protocol `TelemetrySink`.
pub record TelemetrySink : Type 1 where
  pub State : Type 0
  pub publish : Values → State → Result (Unit {0}) × State

pub record Bridge (S : Type 0) : Type 0 where
  pub sink : S
  pub freshness_timeout : ℕ
  pub signals : List SignalSpec
  pub require_complete_frames : Bool
  pub last_publish_at : Option ℕ
  pub last_source_timestamp : Option ℕ
  pub last_source_values : Option Values
  pub unavailable : Bool

abbrev item_equals : Option SignalValue → Option SignalValue → Bool
item_equals none none = true
item_equals (some a) (some b) = signal_value_equals a b
item_equals _ _ = false

abbrev found_equals : Option SignalValue → Option (Option SignalValue) → Bool
found_equals a none = false
found_equals a (some b) = item_equals a b

entries_equal : Values → Values → Bool
entries_equal [] ws = true
entries_equal ((path, a) ∷ vs) ws = found_equals a (lookup path ws) && entries_equal vs ws

-- `==` of two dicts.
unfoldable pub values_equal : Values → Values → Bool
unfolding entries_equal
values_equal vs ws = length vs == length ws && entries_equal vs ws

-- `snapshot.values == self._last_source_values`
unfoldable pub same_as_last : Values → Option Values → Bool
unfolding values_equal
same_as_last vs none = false
same_as_last vs (some ws) = values_equal vs ws

module _ (K : TelemetrySink) where
  -- `BridgeState(sink, freshness_timeout_seconds, …)`
  unfoldable pub new_bridge : K.State → ℕ → List SignalSpec → Bool → Result (Bridge K.State)
  new_bridge sink timeout signals require_complete = do
    raise_if (timeout == 0) (value_error "freshness timeout must be positive")
    ok (record {
      sink = sink;
      freshness_timeout = timeout;
      signals = signals;
      require_complete_frames = require_complete;
      last_publish_at = none;
      last_source_timestamp = none;
      last_source_values = none;
      unavailable = false;
    })

  unfoldable pub mark_unavailable : Bridge K.State → Result Bool × Bridge K.State
  mark_unavailable b =
      if b.unavailable
      then (ok false, b)
      else let (r, sink) = K.publish (cleared b.signals) b.sink in
        elim r [
          | ok u ↦ (ok true, record b { sink = sink; unavailable = true })
          | err e ↦ (err e, record b { sink = sink })
        ]

  unfoldable pub tick : ℕ → Bridge K.State → Result Bool × Bridge K.State
  tick now b = elim b.last_publish_at [
    | none ↦ (ok false, b)
    | some at ↦
        let marked = mark_unavailable b in
        if b.unavailable || ltb (now - at) b.freshness_timeout then (ok false, b) else marked
  ]

  -- The last lines of `handle_message`.
  pub publish_frame : ℕ → Snapshot → Bridge K.State → Result Snapshot × Bridge K.State
  publish_frame now snapshot b =
      let (r, sink) = K.publish snapshot.values b.sink in
      elim r [
        | ok u ↦ (
          ok snapshot,
          record b {
            sink = sink;
            last_publish_at = some now;
            last_source_timestamp = snapshot.source_timestamp;
            last_source_values = some snapshot.values;
            unavailable = false;
          },
        )
        | err e ↦ (err e, record b { sink = sink })
      ]

  -- `self.mark_unavailable()`, whose own exception comes before `r`.
  withdraw : Result Snapshot → Bridge K.State → Result Snapshot × Bridge K.State
  withdraw r b =
      let (m, b') = mark_unavailable b in elim m [ ok changed ↦ (r, b') | err e ↦ (err e, b') ]

  -- The frame is complete, with this source timestamp.
  complete_frame : ℕ → ℕ → Snapshot → Bridge K.State → Result Snapshot × Bridge K.State
  unfolding publish_frame withdraw
  complete_frame now t snapshot b = elim b.last_source_timestamp [
    | none ↦ publish_frame now snapshot b
    | some last ↦
        if t == last && same_as_last snapshot.values b.last_source_values
        then (ok (record snapshot { repeated = true }), b)
        else if leb t last
        then withdraw
            (err (
              value_error (
                if t == last
                then "VISS source frame is not monotonic: SAME_TIMESTAMP_CHANGED"
                else "VISS source frame is not monotonic: TIME_REGRESSION")))
            b
        else publish_frame now snapshot b
  ]

  unfoldable pub handle_frame : ℕ → Snapshot → Bridge K.State → Result Snapshot × Bridge K.State
  unfolding complete_frame
  handle_frame now snapshot b =
      if b.require_complete_frames
      then (elim snapshot.source_timestamp [
        | none ↦ withdraw (ok snapshot) b
        | some t ↦
            if snapshot.complete then complete_frame now t snapshot b else withdraw (ok snapshot) b
      ])
      else publish_frame now snapshot b

  unfoldable pub handle_message :
      Library → ℕ → String → String → Bridge K.State → Result Snapshot × Bridge K.State
  handle_message py now raw subscription_id b =
      elim (parse_snapshot py raw subscription_id b.signals) [
        | err e ↦ (err e, b)
        | ok snapshot ↦ handle_frame now snapshot b
      ]
