-- ===== src/Runtime/Tests.antt =====
-- The theorem on the loops of runtime.py at a concrete session.
use aos_vehicle_platform.Prelude.{
  String, ◌≡◌, refl, true, false, none, some, List, [], ◌∷◌, ◌++◌, Result, ok, err,
  json_decode_error, ◌==◌, string_eq, nat_eq, option_eq, if◌then◌else◌, contains, kuksa_unavailable,
}
use aos_vehicle_platform.Prelude.Dict.{lookup, insert}
use aos_vehicle_platform.Prelude.Text.{ends_with_z, drop_last, sorted}
use aos_vehicle_platform.Python.{
  Json, Fields, Library, pos, get, get_or_null, has_key, is_str, items, is_utc,
}
use aos_vehicle_platform.Bridge.Signal.{uint8_percent, base_signals}
use aos_vehicle_platform.Bridge.Snapshot.{
  Values, cleared_onto, signal_by_path, timestamps, finish, parse_data_point, parse_points,
  parse_snapshot,
}
use aos_vehicle_platform.Bridge.State.{
  TelemetrySink, handle_message, handle_frame, same_as_last, tick, mark_unavailable,
}
use aos_vehicle_platform.Readiness.Identity.{Source, same_source}
use aos_vehicle_platform.Readiness.{
  ready, not_ready, view, new_tracker, manifest_validated, is_no_reason, dependencies_ready,
  dependencies, authenticating, observe, stale,
}
use aos_vehicle_platform.Runtime.{
  Session, Setup, session_failed, credential_after, readiness_after, connecting, connected,
  check_age, receive, Event, on_connecting, on_connected, on_message, on_timeout, on_failure, step,
  steps,
}
use aos_vehicle_platform.Python.{is_int, is_subset, keys}
use aos_vehicle_platform.Bridge.Signal.{base_signals}
use aos_vehicle_platform.Runtime.Consistent.{steps-ready}
use aos_vehicle_platform.Manifest.{Files}
use aos_vehicle_platform.Runtime.Configuration.{
  PayloadConfiguration, load_payload_configuration, read_object, load_payload, load_with,
  load_plain, read_timing, timing_fields, integer, require_keys,
}
use aos_vehicle_platform.Runtime.Loaded.{IsTimed, IsPayloadOf, load_payload_configuration-IsTimed}

event : Fields
event = Fields.field "action" (Json.str "subscription") (
    Fields.field "subscriptionId" (Json.str "s1") (
      Fields.field "data"
        (Json.obj (
          Fields.field "path" (Json.str "Brake") (
            Fields.field "dp"
              (Json.obj (
                Fields.field "value" (Json.str "40")
                  (Fields.field "ts" (Json.str "1Z") Fields.end)))
              Fields.end)))
        Fields.end))

load : String → Result Json
unfolding event
load raw = if raw == "frame" then ok (Json.obj event) else err json_decode_error

unfoldable pub py : Library
unfolding load
py = record {
  loads = load;
  dumps = λ j. "json";
  dumps_unicode = λ j. "json";
  float_of = λ raw. none;
  fromisoformat = λ raw. some (record { instant = 1; utcoffset = some (pos 0) });
  isoformat_z = λ d. "1Z";
}

abbrev sink : TelemetrySink
sink = record { State = List Values; publish = λ vs s. (ok tt, vs ∷ s) }

abbrev source : Source
source =
    Source.test_only (record {
      unit_id = "unit";
      node_id = "node";
      assignment_generation = 1;
      path_set = "VDP_V1";
    })

abbrev setup : Setup
setup = record { source = source; server_authenticated_test_only = true }

abbrev started : Session (List Values)
started = record {
  bridge = record {
    sink = [];
    freshness_timeout = 1_000_000;
    signals = record { path = "Brake"; convert = uint8_percent } ∷ [];
    require_complete_frames = true;
    last_publish_at = none;
    last_source_timestamp = none;
    last_source_values = none;
    unavailable = true;
  };
  readiness = manifest_validated (new_tracker source);
  viss_authenticated = false;
}

ran : List Event → Session (List Values)
unfolding steps step connecting connected receive check_age session_failed credential_after
    readiness_after handle_message handle_frame same_as_last tick mark_unavailable parse_snapshot py
    string_eq nat_eq option_eq is_str get_or_null get has_key items lookup insert contains
    signal_by_path parse_data_point ends_with_z drop_last is_utc cleared_onto finish timestamps
    sorted parse_points uint8_percent observe dependencies authenticating stale manifest_validated
    same_source
ran es = steps setup sink (λ s. s) py es started

abbrev first_events : List Event
first_events = on_connecting ∷ on_connected ∷ on_message 7 8 "frame" "s1" ∷ []

-- READY after the frame, and neither after the timeout nor after a failure of KUKSA.
views :
    ((view (ran first_events).readiness).data_readiness ≡ ready)
    × ((view (ran (first_events ++ (on_timeout 1_000_007 ∷ []))).readiness).data_readiness
        ≡ not_ready)
    × ((view (ran (first_events ++ (on_failure kuksa_unavailable ∷ []))).readiness).data_readiness
        ≡ not_ready)
unfolding ran view is_no_reason
views = (refl, refl, refl)

abbrev reached : Session (List Values)
reached = steps setup sink (λ s. s) py first_events started

reached_ready : (view reached.readiness).data_readiness ≡ ready
unfolding ran view is_no_reason
reached_ready = refl

not_ready_first : is_no_reason started.readiness.reason ≡ false
unfolding manifest_validated is_no_reason
not_ready_first = refl

steps-ready_example :
    (reached.bridge.unavailable ≡ false) × (dependencies_ready reached.readiness ≡ true)
steps-ready_example =
    steps-ready setup sink (λ s. s) py first_events started reached not_ready_first refl
      reached_ready

-- A payload of schema version 2.
timing : Json
timing = Json.obj (
    Fields.field "subscriptionPeriodMs" (Json.int (pos 100)) (
      Fields.field "freshnessTimeoutMs" (Json.int (pos 1000)) (
        Fields.field "reconnectInitialMs" (Json.int (pos 500))
          (Fields.field "reconnectMaxMs" (Json.int (pos 5000)) Fields.end))))

payload_object : Fields
unfolding timing
payload_object = Fields.field "schemaVersion" (Json.int (pos 2)) (
    Fields.field "provider" (Json.str "carla-viss-kuksa") (
      Fields.field "vehicleTelemetryProfile" (Json.str "0.1.1") (
        Fields.field "runtimeInterface" (Json.int (pos 1))
          (Fields.field "timing" timing Fields.end))))

load_file : String → Result Json
unfolding payload_object
load_file text = ok (Json.obj payload_object)

file_py : Library
unfolding load_file
file_py = record {
  loads = load_file;
  dumps = λ j. "json";
  dumps_unicode = λ j. "json";
  float_of = λ raw. none;
  fromisoformat = λ raw. none;
  isoformat_z = λ d. "1Z";
}

abbrev files : Files
files = record { Bytes = String; sha256_bytes = λ raw. raw; loads_bytes = λ raw. ok Json.null }

abbrev configuration : PayloadConfiguration
configuration = record {
  subscription_period_ms = 100;
  freshness_timeout_ms = 1000;
  reconnect_initial_ms = 500;
  reconnect_max_ms = 5000;
  semantic_version = none;
  signals = base_signals file_py;
  advisory_enabled = false;
}

loaded : load_payload_configuration file_py files (some (ok "text")) none none ≡ ok configuration
unfolding load_payload_configuration read_object load_payload load_with load_plain read_timing
    timing_fields integer require_keys file_py is_int is_str get_or_null get keys is_subset contains
    string_eq nat_eq
loaded = refl

load_payload_configuration-IsTimed_example :
    IsTimed configuration × IsPayloadOf file_py files none none configuration
load_payload_configuration-IsTimed_example =
    load_payload_configuration-IsTimed file_py files (some (ok "text")) none none configuration
      loaded
