-- ===== src/Bridge/Snapshot.antt =====
-- bridge.py: the VISS messages. `parse_snapshot` turns a subscription event into a `Snapshot`.
mod Filled
pub mod Foreign
pub mod Complete
pub mod Range
use aos_vehicle_platform.Prelude.{◌≡◌, ap, sym, >>=-eq-ok, ok-injective}
use aos_vehicle_platform.Prelude.{
  ℕ, leb, ◌<>◌, ◌++◌, String, Bool, true, false, not, ◌&&◌, ◌||◌, Option, none, some,
}
use aos_vehicle_platform.Prelude.{
  List, [], ◌∷◌, Result, ok, err, Exception, value_error, type_error,
}
use aos_vehicle_platform.Prelude.{
  is_value_error, json_decode_error, ◌>>=◌, ◌>>◌, raise_if, ◌==◌, nat_eq,
}
use aos_vehicle_platform.Prelude.{string_eq, contains, if◌then◌else◌}
use aos_vehicle_platform.Prelude.Lists.{length}
use aos_vehicle_platform.Prelude.Dict.{Dict, lookup, insert}
use aos_vehicle_platform.Prelude.Text.{ends_with_z, drop_last, sorted, decimal}
use aos_vehicle_platform.Python.{
  Json, Items, Fields, Library, get_or_null, has_key, is_str, items, is_utc,
}
use aos_vehicle_platform.Bridge.Signal.{SignalSpec, SignalValue, relative_path}

abbrev pub Values : Type 0
Values = Dict String (Option SignalValue)

pub record Snapshot : Type 0 where
  pub values : Values
  pub invalid_paths : List String
  pub complete : Bool
  pub source_timestamp : Option ℕ
  pub repeated : Bool

-- `[signal.relative_path for signal in signals]`
unfoldable pub path_items : List SignalSpec → Items
path_items [] = Items.nil
path_items (s ∷ ss) = Items.cons (Json.str (relative_path s)) (path_items ss)

unfoldable pub subscription_object : String → ℕ → List SignalSpec → Json
unfolding path_items
subscription_object request_id period_ms signals =
    let paths = Json.obj (
      Fields.field "variant" (Json.str "paths")
        (Fields.field "parameter" (Json.arr (path_items signals)) Fields.end)) in
    let timebased = Json.obj (
      Fields.field "variant" (Json.str "timebased") (
        Fields.field "parameter"
          (Json.obj (Fields.field "period" (Json.str (decimal period_ms)) Fields.end))
          Fields.end)) in
    Json.obj (
      Fields.field "action" (Json.str "subscribe") (
        Fields.field "path" (Json.str "Vehicle") (
          Fields.field "filter" (Json.arr (Items.cons paths (Items.cons timebased Items.nil)))
            (Fields.field "requestId" (Json.str request_id) Fields.end))))

unfoldable pub both_texts : Json → Json → Result (String × String)
both_texts (Json.str value) (Json.str ts) = ok (value, ts)
both_texts _ _ = err (value_error "VISS value and timestamp must be strings")

unfoldable pub datapoint_texts : Json → Result (String × String)
unfolding both_texts
datapoint_texts (Json.obj datapoint) =
    both_texts (get_or_null "value" datapoint) (get_or_null "ts" datapoint)
datapoint_texts _ = err (value_error "VISS data point has no dp object")

-- The value and the timestamp of a point, as texts.
unfoldable pub data_point_texts : Fields → Result (String × String)
unfolding datapoint_texts
data_point_texts point = datapoint_texts (get_or_null "dp" point)

-- The dict `signal_by_path`.
unfoldable pub signal_by_path : List SignalSpec → Dict String SignalSpec → Dict String SignalSpec
signal_by_path [] d = d
signal_by_path (s ∷ ss) d = signal_by_path ss (insert s.path s d)

-- The dict `{signal.path: None for signal in signals}`.
unfoldable pub cleared_onto : List SignalSpec → Values → Values
cleared_onto [] d = d
cleared_onto (s ∷ ss) d = cleared_onto ss (insert s.path none d)

abbrev pub cleared : List SignalSpec → Values
cleared signals = cleared_onto signals []

-- The variables of the loop over the points.
pub record Progress : Type 0 where
  pub selected : Values
  pub invalid : List String
  pub seen : List String

abbrev pub start : List SignalSpec → Progress
start signals = record { selected = cleared signals; invalid = []; seen = [] }

-- The set of the timestamps of the values that are there.
unfoldable pub timestamps : Values → List ℕ
timestamps [] = []
timestamps ((path, none) ∷ vs) = timestamps vs
timestamps ((path, some v) ∷ vs) =
    let rest = timestamps vs in if contains rest v.timestamp then rest else v.timestamp ∷ rest

abbrev single : List ℕ → Option ℕ
single [] = none
single (t ∷ ts) = some t

is_nil : List String → Bool
is_nil [] = true
is_nil (x ∷ xs) = false

-- What follows the loop.
unfoldable pub finish : List SignalSpec → Progress → Snapshot
unfolding is_nil
finish signals p =
    let stamps = timestamps p.selected in
    let complete = is_nil p.invalid && length p.seen == length signals && length stamps == 1 in
    record {
      values = p.selected;
      invalid_paths = sorted p.invalid;
      complete = complete;
      source_timestamp = if complete then single stamps else none;
      repeated = false;
    }

module _ (py : Library) where
  unfoldable pub subscription_request : String → ℕ → List SignalSpec → Result String
  subscription_request request_id period_ms signals = do
    raise_if (request_id == "") (value_error "request ID must not be empty")
    raise_if (not (leb 50 period_ms && leb period_ms 60_000))
        (value_error "subscription period must be between 50 and 60000 ms")
    ok (py.dumps (subscription_object request_id period_ms signals))

  -- `except (json.JSONDecodeError, TypeError)`
  decode_failure : Exception → Exception
  decode_failure json_decode_error = value_error "message is not valid VISS JSON"
  decode_failure type_error = value_error "message is not valid VISS JSON"
  decode_failure e = e

  unfoldable pub message_object : String → Result Fields
  unfolding decode_failure
  message_object raw = elim (py.loads raw) [
    | err e ↦ err (decode_failure e)
    | ok message ↦ elim message [
      | Json.obj fields ↦ ok fields
      | _ ↦ err (value_error "VISS message must be an object")
    ]
  ]

  unfoldable pub parse_subscribe_response : String → String → Result String
  unfolding message_object
  parse_subscribe_response raw request_id = do
    message ← message_object raw
    raise_if
        (not (is_str (get_or_null "action" message) "subscribe")
          || not (is_str (get_or_null "requestId" message) request_id))
        (value_error "unexpected VISS subscribe response")
    raise_if (has_key "error" message) (value_error "VISS subscription was rejected")
    let missing = value_error "VISS subscribe response has no subscription ID"
    elim (get_or_null "subscriptionId" message) [
      | Json.str id ↦ if id == "" then err missing else ok id
      | _ ↦ err missing
    ]

  unfoldable pub parse_timestamp : String → Result ℕ
  parse_timestamp raw = do
    raise_if (not (ends_with_z raw)) (value_error "VISS timestamp must be UTC with a trailing Z")
    elim (py.fromisoformat (drop_last raw <> "+00:00")) [
      | none ↦ err (value_error "VISS timestamp is invalid")
      | some timestamp ↦ do
        raise_if (not (is_utc timestamp)) (value_error "VISS timestamp must be UTC")
        ok timestamp.instant
    ]

  unfoldable pub parse_data_point : SignalSpec → Fields → Result SignalValue
  unfolding data_point_texts parse_timestamp
  parse_data_point signal point = do
    texts ← data_point_texts point
    timestamp ← parse_timestamp texts.1
    value ← signal.convert texts.0
    ok (record { value = value; timestamp = timestamp })

  -- `except (TypeError, ValueError)`
  abbrev is_bad_point : Exception → Bool
  is_bad_point type_error = true
  is_bad_point e = is_value_error e

  -- The point is for a signal, and not the first for it.
  take_point : String → Result SignalValue → Progress → Result Progress
  take_point path (ok v) p = ok (record {
    selected = insert path (some v) p.selected;
    invalid = p.invalid;
    seen = path ∷ p.seen;
  })
  take_point path (err e) p =
      if is_bad_point e
      then ok (record {
        selected = insert path none p.selected;
        invalid = p.invalid ++ (path ∷ []);
        seen = path ∷ p.seen;
      })
      else err e

  -- The path names this signal.
  take_known : String → SignalSpec → Fields → Progress → Result Progress
  take_known path signal point p =
      if contains p.seen path
      then err (value_error ("duplicate VISS data point: " <> path))
      else take_point path (parse_data_point signal point) p

  -- A path that names no signal is passed over; one with no hash raises.
  take_path : List SignalSpec → Json → Fields → Progress → Result Progress
  unfolding take_known take_point
  take_path signals (Json.str path) point p = elim (lookup path (signal_by_path signals [])) [
    | none ↦ ok p
    | some signal ↦ take_known path signal point p
  ]
  take_path signals (Json.arr vs) point p = err type_error
  take_path signals (Json.obj fs) point p = err type_error
  take_path signals _ point p = ok p

  unfoldable pub parse_points : List SignalSpec → List Json → Progress → Result Progress
  unfolding take_path
  parse_points signals [] p = ok p
  parse_points signals (Json.obj point ∷ points) p =
      take_path signals (get_or_null "path" point) point p >>= parse_points signals points
  parse_points signals (_ ∷ points) p = err (value_error "VISS data point must be an object")

  abbrev data_points : Json → Result (List Json)
  data_points (Json.obj fs) = ok (Json.obj fs ∷ [])
  data_points (Json.arr vs) = ok (items vs)
  data_points _ = err (value_error "VISS subscription event has invalid data")

  -- The checks of `parse_snapshot` before its loop.
  unfoldable pub event_points : String → String → Result (List Json)
  unfolding message_object
  event_points raw subscription_id = do
    message ← message_object raw
    raise_if (not (is_str (get_or_null "action" message) "subscription"))
        (value_error "message is not a VISS subscription event")
    raise_if (not (is_str (get_or_null "subscriptionId" message) subscription_id))
        (value_error "VISS subscription ID does not match")
    raise_if (has_key "error" message) (value_error "VISS subscription event contains an error")
    data_points (get_or_null "data" message)

  unfoldable pub parse_snapshot : String → String → List SignalSpec → Result Snapshot
  unfolding event_points parse_points
  parse_snapshot raw subscription_id signals = do
    points ← event_points raw subscription_id
    p ← parse_points signals points (start signals)
    ok (finish signals p)

  -- The points are those of the message.
  pub parse_snapshot-event_points :
      (raw subscription_id : String) (signals : List SignalSpec) {s : Snapshot}
      → parse_snapshot raw subscription_id signals ≡ ok s
      → (points : List Json) × (p : Progress) × (event_points raw subscription_id ≡ ok points)
        × (parse_points signals points (start signals) ≡ ok p)
        × (finish signals p ≡ s)
  unfolding parse_snapshot
  parse_snapshot-event_points raw id signals h =
      let (points, read, h') = >>=-eq-ok (event_points raw id) _ h in
      let (p, e, h'') = >>=-eq-ok (parse_points signals points (start signals)) _ h' in
      (points, p, read, e, ok-injective h'')

  -- A snapshot comes from the loop over some points.
  pub parse_snapshot-finish :
      (raw subscription_id : String) (signals : List SignalSpec) {s : Snapshot}
      → parse_snapshot raw subscription_id signals ≡ ok s
      → (points : List Json) × (p : Progress) × (parse_points signals points (start signals) ≡ ok p)
        × (finish signals p ≡ s)
  parse_snapshot-finish raw id signals h =
      let (points, p, _, e, f) = parse_snapshot-event_points raw id signals h in (points, p, e, f)

  pub parse_snapshot-repeated :
      (raw subscription_id : String) (signals : List SignalSpec) {s : Snapshot}
      → parse_snapshot raw subscription_id signals ≡ ok s
      → s.repeated ≡ false
  unfolding finish
  parse_snapshot-repeated raw id signals h =
      let (points, p, e, f) = parse_snapshot-finish raw id signals h in
      ap (λ (s : Snapshot). s.repeated) (sym f)
