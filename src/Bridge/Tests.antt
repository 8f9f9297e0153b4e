-- ===== src/Bridge/Tests.antt =====
-- The theorems on bridge.py at concrete frames, and runs of the code.
use aos_vehicle_platform.Prelude.{
  ℕ, ◌-◌, ◌<◌, String, ◌≡◌, ◌↔◌, refl, true, false, ◌⊎◌, inl, inr, Option, none, some, List, [],
  ◌∷◌, arith, Result, ok, err, json_decode_error, ◌==◌, string_eq, nat_eq, option_eq, if◌then◌else◌,
  contains,
}
use aos_vehicle_platform.Prelude.Dict.{lookup, insert}
use aos_vehicle_platform.Prelude.Text.{decimal, ends_with_z, drop_last, sorted}
use aos_vehicle_platform.Python.{
  Json, Items, Fields, Library, Double, Datetime, pos, is_finite, is_negative, get_or_null, has_key,
  is_str, items, is_utc,
}
use aos_vehicle_platform.Bridge.Signal.{
  Value, SignalSpec, SignalValue, signal_value_equals, nonnegative_float, uint8_percent,
}
use aos_vehicle_platform.Bridge.Signal.Convert.{HasStandard, uint8_percent-decimal}
use aos_vehicle_platform.Bridge.Snapshot.{
  Values, Snapshot, cleared_onto, signal_by_path, timestamps, finish, parse_data_point,
  parse_points, parse_snapshot,
}
use aos_vehicle_platform.Bridge.Snapshot.Complete.{CoversAt, parse_snapshot-complete}
use aos_vehicle_platform.Bridge.Snapshot.Range.{
  IsConverted, IsPointOf, IsInRange, parse_snapshot-convert, parse_snapshot-InRange,
}
use aos_vehicle_platform.Bridge.State.{
  TelemetrySink, Bridge, tick, mark_unavailable, handle_message, handle_frame, same_as_last,
}
use aos_vehicle_platform.Bridge.State.Frames.{
  IsPublished, handle_message-IsPublished, tick_fails_safe,
}
use aos_vehicle_platform.Bridge.State.Retained.{Call, message, clock, unavailable, calls}
use aos_vehicle_platform.Bridge.State.Monotone.{Rises, calls-Rises}

point : String → String → String → Json
point path value ts = Json.obj (
    Fields.field "path" (Json.str path) (
      Fields.field "dp"
        (Json.obj
          (Fields.field "value" (Json.str value) (Fields.field "ts" (Json.str ts) Fields.end)))
        Fields.end))

frame : String → Json → Json → Json
frame id a b = Json.obj (
    Fields.field "action" (Json.str "subscription") (
      Fields.field "subscriptionId" (Json.str id)
        (Fields.field "data" (Json.arr (Items.cons a (Items.cons b Items.nil))) Fields.end)))

-- Two messages, of two times; the second is incomplete.
load : String → Result Json
unfolding point frame
load raw =
    if raw == "first"
    then ok (frame "s1" (point "Vehicle.Speed" "one" "1Z") (point "Brake" "40" "1Z"))
    else if raw == "partial"
    then ok (frame "s1" (point "Vehicle.Speed" "one" "2Z") (point "Brake" "140" "2Z"))
    else err json_decode_error

read_float : String → Option Double
read_float raw = if raw == "one" then some (record { bits = 0x3ff0_0000_0000_0000 }) else none

read_time : String → Option Datetime
read_time raw =
    if raw == "1+00:00"
    then some (record { instant = 1; utcoffset = some (pos 0) })
    else if raw == "2+00:00"
    then some (record { instant = 2; utcoffset = some (pos 0) })
    else none

pub py : Library
unfolding load read_float read_time
py = record {
  loads = load;
  dumps = λ j. "json";
  dumps_unicode = λ j. "json";
  float_of = read_float;
  fromisoformat = read_time;
  isoformat_z = λ d. "1Z";
}

abbrev speed : SignalSpec
speed = record { path = "Vehicle.Speed"; convert = nonnegative_float py }

abbrev brake : SignalSpec
brake = record { path = "Brake"; convert = uint8_percent }

abbrev signals : List SignalSpec
signals = speed ∷ brake ∷ []

abbrev one : SignalValue
one = record { value = Value.float (record { bits = 0x3ff0_0000_0000_0000 }); timestamp = 1 }

abbrev forty : SignalValue
forty = record { value = Value.int 40; timestamp = 1 }

abbrev first_values : Values
first_values = ("Vehicle.Speed", some one) ∷ ("Brake", some forty) ∷ []

abbrev first : Snapshot
first = record {
  values = first_values;
  invalid_paths = [];
  complete = true;
  source_timestamp = some 1;
  repeated = false;
}

-- `parse_snapshot` with all that it computes by.
parse : String → Result Snapshot
unfolding parse_snapshot py string_eq nat_eq is_str get_or_null has_key items lookup insert contains
    signal_by_path parse_data_point ends_with_z drop_last is_utc nonnegative_float is_finite
    is_negative cleared_onto finish timestamps sorted parse_points uint8_percent
parse raw = parse_snapshot py raw "s1" signals

parse_first : parse_snapshot py "first" "s1" signals ≡ ok first
unfolding parse
parse_first = refl

-- A percentage above 100 is marked invalid, and the frame incomplete.
parse_partial :
    parse_snapshot py "partial" "s1" signals
    ≡ ok (record {
      values =
          ("Vehicle.Speed", some (record { value = one.value; timestamp = 2 }))
          ∷ ("Brake", none)
          ∷ [];
      invalid_paths = "Brake" ∷ [];
      complete = false;
      source_timestamp = none;
      repeated = false;
    })
unfolding parse
parse_partial = refl

parse_snapshot-complete_example :
    (t : ℕ) × (first.source_timestamp ≡ some t) × CoversAt signals first.values t
parse_snapshot-complete_example =
    parse_snapshot-complete py "first" "s1" signals first parse_first refl

found_forty : lookup "Brake" first.values ≡ some (some forty)
unfolding lookup string_eq
found_forty = refl

parse_snapshot-convert_example : IsConverted py (IsPointOf py "first" "s1") signals "Brake" forty
parse_snapshot-convert_example =
    parse_snapshot-convert py "first" "s1" signals first parse_first "Brake" forty found_forty

signals-HasStandard : HasStandard py speed × (HasStandard py brake × Unit {0})
signals-HasStandard = (inr (inl refl), (inr (inr refl), tt))

parse_snapshot-InRange_example :
    (signal : SignalSpec) × (lookup "Brake" (signal_by_path signals []) ≡ some signal)
    × IsInRange py signal forty.value
parse_snapshot-InRange_example =
    parse_snapshot-InRange py "first" "s1" signals first signals-HasStandard parse_first "Brake"
      forty found_forty

uint8_percent-decimal_example : uint8_percent (decimal 100) ≡ ok (Value.int 100)
uint8_percent-decimal_example = uint8_percent-decimal 100 (omega arith)

-- A sink that keeps what was published, the last first, and refuses nothing.
abbrev log_sink : TelemetrySink
log_sink = record { State = List Values; publish = λ vs s. (ok tt, vs ∷ s) }

abbrev fresh_bridge : Bridge (List Values)
fresh_bridge = record {
  sink = [];
  freshness_timeout = 1_000_000;
  signals = signals;
  require_complete_frames = true;
  last_publish_at = none;
  last_source_timestamp = none;
  last_source_values = none;
  unavailable = false;
}

abbrev after_first : Bridge (List Values)
after_first = record fresh_bridge {
  sink = first_values ∷ [];
  last_publish_at = some 7;
  last_source_timestamp = some 1;
  last_source_values = some first_values;
}

handled : ℕ → String → Bridge (List Values) → Result Snapshot × Bridge (List Values)
unfolding handle_message handle_frame parse same_as_last signal_value_equals option_eq
handled now raw b = handle_message log_sink py now raw "s1" b

handle_first : handled 7 "first" fresh_bridge ≡ (ok first, after_first)
unfolding handled
handle_first = refl

handle_message-IsPublished_example :
    (t : ℕ) × (first.source_timestamp ≡ some t)
    × IsPublished log_sink 7 t first.values fresh_bridge
        (handle_message log_sink py 7 "first" "s1" fresh_bridge).1
unfolding handled
handle_message-IsPublished_example =
    handle_message-IsPublished log_sink py 7 "first" "s1" first fresh_bridge refl refl refl refl

-- A stale bridge withdraws at the timeout, and not before.
tick_runs :
    ((tick log_sink 1_000_006 after_first).0 ≡ ok false)
    × ((tick log_sink 1_000_007 after_first).0 ≡ ok true)
    × ((tick log_sink 1_000_007 after_first).1.unavailable ≡ true)
unfolding tick mark_unavailable
tick_runs = (refl, refl, refl)

tick_fails_safe_example :
    (((tick log_sink 1_000_007 after_first).1.unavailable ≡ true)
      ⊎ (after_first.last_publish_at ≡ none)
      ⊎ ((at : ℕ) × (after_first.last_publish_at ≡ some at) × (1_000_007 - at < 1_000_000)))
    × ((true ≡ true) ↔ (
        (after_first.unavailable ≡ false)
        × ((tick log_sink 1_000_007 after_first).1.unavailable ≡ true)))
tick_fails_safe_example = tick_fails_safe log_sink 1_000_007 after_first true (tick_runs.1)

abbrev some_calls : List Call
some_calls =
    message 7 "first" "s1"
    ∷ message 8 "partial" "s1"
    ∷ clock 9
    ∷ unavailable
    ∷ message 10 "bad" "s1"
    ∷ []

calls-Rises_example :
    Rises after_first.last_source_timestamp
      (calls log_sink py some_calls after_first).last_source_timestamp
calls-Rises_example = calls-Rises log_sink py some_calls after_first refl
