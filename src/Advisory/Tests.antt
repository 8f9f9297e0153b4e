-- ===== src/Advisory/Tests.antt =====
-- The theorems on advisory.py at concrete messages, and runs of the code.
use aos_vehicle_platform.Prelude.{
  ℕ, ◌+◌, ◌≤◌, String, ◌≡◌, ◌≢◌, refl, Bool, true, false, inl, Option, none, some, List, [], ◌∷◌,
  arith, Result, ok, err, json_decode_error, ◌==◌, string_eq, nat_eq, option_eq, pair_eq,
  if◌then◌else◌, contains, type_error,
}
use text.Mathlib.TextEquality.{eq_iff}
use aos_vehicle_platform.Prelude.Dict.{lookup, insert, insert_last, erase, trim}
use aos_vehicle_platform.Prelude.Text.{ends_with_z, drop_last, every}
use aos_vehicle_platform.Python.{
  Json, Items, Fields, Library, Datetime, pos, get, get_or_null, keys, same_set, is_str, is_int,
  in_set, is_utc,
}
use aos_vehicle_platform.Python.Patterns.{is_uuid, is_decision_id, is_semver, is_model_version}
use aos_vehicle_platform.Advisory.Endpoint.{
  Endpoint, endpoints, endpoint_by_status, brake_health, same_endpoint, Caller, Decision, refused,
}
use aos_vehicle_platform.Advisory.Request.{
  Identity, identity_of, canonical_object, validate_request, schema_failure, positive_int,
  is_positive_int, is_text_of, check_form, check_operation, check_times, timestamp_of,
}
use aos_vehicle_platform.Advisory.Status.{check_status, validate_status, require_in}
use aos_vehicle_platform.Advisory.Policy.{
  VissWriter, StatusPublisher, State, Message, on_request, on_status, Request, new_policy,
  replay_of, expire_replay, is_rollback, is_rate_limited, requested_state_of, remember, forward,
  replayed, admit, decide, handle_request, read_request, is_authorised, refused_by, read_status,
  publish, is_pending, is_terminal, is_success, handle_gateway_status, serve,
}
use aos_vehicle_platform.Advisory.Policy.Bounds.{IsBounded, tables-IsBounded}
use aos_vehicle_platform.Advisory.Policy.Forward.{
  IsForwarded, IsUntouched, handle_request-forwarded, handle_request-IsUntouched,
}
use aos_vehicle_platform.Advisory.Policy.Fresh.{IsFresh, handle_request-IsFresh}
use aos_vehicle_platform.Advisory.Policy.Trace.{forwards_spaced}
use aos_vehicle_platform.Advisory.Policy.Replay.{idempotent, retry_is_idempotent}
use aos_vehicle_platform.Advisory.Policy.Gateway.{
  IsPublished, handle_gateway_status-accepted, terminal_once,
}

abbrev uuid : String
uuid = "11111111-2222-3333-8444-555555555555"

-- The fields that every request of these tests has; the decision's ID names its text.
common : String → ℕ → Fields → Fields
common raw sequence rest = Fields.field "schemaVersion" (Json.int (pos 1)) (
    Fields.field "requestId" (Json.str uuid) (
      Fields.field "producerEpoch" (Json.str uuid) (
        Fields.field "sequence" (Json.int (pos sequence)) (
          Fields.field "decisionId" (Json.str raw) (
            Fields.field "serviceVersion" (Json.str "1.0.0") (
              Fields.field "modelVersion" (Json.str "m1") (
                Fields.field "issuedAt" (Json.str "1Z")
                  (Fields.field "expiresAt" (Json.str "9Z") rest))))))))

set_request : String → ℕ → Json → Fields
unfolding common
set_request raw sequence recommendation = common raw sequence (
    Fields.field "operation" (Json.str "SET") (
      Fields.field "recommendation" recommendation
        (Fields.field "reasonCode" (Json.str "PREDICTED_BRAKE_DEGRADATION") Fields.end)))

clear_request : String → ℕ → Fields
unfolding common
clear_request raw sequence = common raw sequence (
    Fields.field "operation" (Json.str "CLEAR")
      (Fields.field "reasonCode" (Json.str "CONDITION_CLEARED") Fields.end))

gateway_status : String → Fields
gateway_status state = Fields.field "schemaVersion" (Json.int (pos 1)) (
    Fields.field "requestId" (Json.str uuid) (
      Fields.field "producerEpoch" (Json.str uuid) (
        Fields.field "sequence" (Json.int (pos 1)) (
          Fields.field "state" (Json.str state) (
            Fields.field "reason" (Json.str "NONE") (
              Fields.field "gatewayObservedAt" (Json.str "1Z") (
                Fields.field "activeRecommendation" (Json.str "NONE") (
                  Fields.field "activeReasonCode" (Json.str "NONE")
                    (Fields.field "activeUntil" Json.null Fields.end)))))))))

-- Requests "set" and "clear", a request "list" whose recommendation is a list, and statuses
-- "APPLIED" and "EXPIRED".
load : String → Result Json
unfolding set_request clear_request gateway_status
load raw =
    if raw == "set"
    then ok (Json.obj (set_request "set" 1 (Json.str "INSPECTION_RECOMMENDED")))
    else if raw == "clear"
    then ok (Json.obj (clear_request "clear" 2))
    else if raw == "list"
    then ok (Json.obj (set_request "list" 3 (Json.arr Items.nil)))
    else if raw == "APPLIED"
    then ok (Json.obj (gateway_status "APPLIED"))
    else if raw == "EXPIRED"
    then ok (Json.obj (gateway_status "EXPIRED"))
    else err json_decode_error

text_of : Json → String
text_of (Json.str s) = s
text_of _ = ""

write_text : Json → String
unfolding text_of get
write_text (Json.obj fs) = elim (get "decisionId" fs) [
  | some id ↦ text_of id
  | none ↦ elim (get "state" fs) [ some state ↦ text_of state | none ↦ "" ]
]
write_text _ = ""

read_time : String → Option Datetime
read_time raw =
    if raw == "1+00:00"
    then some (record { instant = 1_000_000; utcoffset = some (pos 0) })
    else if raw == "9+00:00"
    then some (record { instant = 9_000_000; utcoffset = some (pos 0) })
    else none

py : Library
unfolding load write_text read_time
py = record {
  loads = load;
  dumps = write_text;
  dumps_unicode = write_text;
  float_of = λ raw. none;
  fromisoformat = read_time;
  isoformat_z = λ d. "1Z";
}

-- A writer and a publisher that keep the texts, the last first.
abbrev writer : VissWriter
writer = record { State = List String; set_value = λ path value log. (ok tt, value ∷ log) }

abbrev publisher : StatusPublisher
publisher = record { State = List String; publish_status = λ path value log. (ok tt, value ∷ log) }

abbrev service : Caller
service = record {
  service_id = "BRAKE_HEALTH";
  functional_profile = "v3";
  authority = "SERVICE_WRITE";
}

abbrev path : String
path = "Vehicle.OEM.BrakeHealth.Advisory.Request"

abbrev status_path : String
status_path = "Vehicle.OEM.BrakeHealth.Advisory.GatewayStatus"

abbrev at : ℕ → Datetime
at n = record { instant = n; utcoffset = some (pos 0) }

abbrev fresh : State writer publisher
fresh = new_policy [] []

abbrev forwarded : Decision
forwarded = record {
  accepted = true;
  reason = "FORWARDED_TO_GATEWAY";
  forwarded = true;
  application_success = false;
}

abbrev expected_request : Request
expected_request = record {
  identity = (uuid, (uuid, 1));
  canonical = "set";
  requested_state = ("SET", some "INSPECTION_RECOMMENDED");
}

-- `read_request` and `handle_request` with all that they compute by.
read : String → ℕ → Result Request
unfolding read_request py canonical_object validate_request schema_failure check_form
    check_operation check_times timestamp_of identity_of positive_int is_positive_int is_text_of
    is_uuid is_decision_id is_semver is_model_version every string_eq nat_eq get_or_null get keys
    same_set is_str is_int in_set is_utc ends_with_z drop_last contains requested_state_of
read raw now = read_request writer publisher py raw brake_health (at now)

read_set : read_request writer publisher py "set" brake_health (at 1_000_000) ≡ ok expected_request
unfolding read
read_set = refl

handled : String → ℕ → State writer publisher → Result Decision × State writer publisher
unfolding handle_request read is_authorised decide replay_of expire_replay replayed admit
    is_rollback is_rate_limited remember forward refused_by lookup insert insert_last trim option_eq
    pair_eq
handled raw now p = handle_request writer publisher py service path raw (at now) now p

abbrev after_set : State writer publisher
after_set = record {
  viss = "set" ∷ [];
  kuksa = [];
  replay =
      ("BRAKE_HEALTH_ADVISORY", ((uuid, (uuid, 1)), ("set", 1_000_000)) ∷ [])
      ∷ ("TIRE_HEALTH_ADVISORY", [])
      ∷ [];
  latest_sequence = (("BRAKE_HEALTH_ADVISORY", uuid), 1) ∷ [];
  last_forward =
      ("BRAKE_HEALTH_ADVISORY", (1_000_000, ("SET", some "INSPECTION_RECOMMENDED"))) ∷ [];
  pending = (("BRAKE_HEALTH_ADVISORY", (uuid, (uuid, 1))), brake_health) ∷ [];
}

handle_set : handled "set" 1_000_000 fresh ≡ (ok forwarded, after_set)
unfolding handled
handle_set = refl

-- A second request within the second is refused, and one after it is forwarded.
handle_clear :
    ((handled "clear" 1_500_000 after_set).0 ≡ ok (refused "RATE_LIMITED"))
    × ((handled "clear" 2_000_000 after_set).0 ≡ ok forwarded)
unfolding handled
handle_clear = (refl, refl)

-- A recommendation that is a list is not refused: the call raises `TypeError`.
handle_list : handled "list" 2_000_000 after_set ≡ (err type_error, after_set)
unfolding handled
handle_list = refl

handle_request-forwarded_example :
    (endpoint : Endpoint) × (request : Request) × (lookup path endpoints ≡ some endpoint)
    × (service.authority ≡ "SERVICE_WRITE")
    × (service.service_id ≡ endpoint.owner_service)
    × (service.functional_profile ≡ endpoint.functional_profile)
    × (read_request writer publisher py "set" endpoint (at 1_000_000) ≡ ok request)
    × (request.canonical ≡ "set")
    × IsForwarded writer publisher endpoint request 1_000_000 fresh
        (handle_request writer publisher py service path "set" (at 1_000_000) 1_000_000 fresh).1
unfolding handled
handle_request-forwarded_example =
    handle_request-forwarded writer publisher py service path "set" (at 1_000_000) 1_000_000 fresh
      forwarded refl refl

limited : ◌≢◌ {A = String} "RATE_LIMITED" "INTERNAL_ERROR"
limited = ground (arith, eq_iff "RATE_LIMITED" "INTERNAL_ERROR")

handle_request-IsUntouched_example :
    IsUntouched writer publisher path after_set
      (handle_request writer publisher py service path "clear" (at 1_500_000) 1_500_000 after_set).1
unfolding handled
handle_request-IsUntouched_example =
    handle_request-IsUntouched writer publisher py service path "clear" (at 1_500_000) 1_500_000
      after_set (refused "RATE_LIMITED") refl refl limited

forwards_spaced_example : 1_000_000 + 1_000_000 ≤ 2_000_000
unfolding handled serve
forwards_spaced_example =
    forwards_spaced writer publisher py service service path "set" "clear" (at 1_000_000)
      (at 2_000_000) 1_000_000 2_000_000 fresh [] forwarded forwarded refl refl refl refl

path_is_known : lookup path endpoints ≡ some brake_health
unfolding lookup string_eq
path_is_known = refl

retry_is_idempotent_example :
    ((handle_request writer publisher py service path "set"
        (at 1_000_001)
        4_000_000
        (handle_request writer publisher py service path "set" (at 1_000_000) 1_000_000 fresh).1).0
      ≡ ok idempotent)
    × IsUntouched writer publisher path
        (handle_request writer publisher py service path "set" (at 1_000_000) 1_000_000 fresh).1
        (handle_request writer publisher py service path "set"
          (at 1_000_001)
          4_000_000
          (handle_request writer publisher py service path "set"
            (at 1_000_000)
            1_000_000
            fresh).1).1
unfolding handled
retry_is_idempotent_example =
    retry_is_idempotent writer publisher py service path "set" (at 1_000_000) (at 1_000_001)
      1_000_000 4_000_000 fresh forwarded brake_health expected_request path_is_known refl refl refl
      (inl refl) (omega arith)

-- The statuses.
read_back : String → Result (Fields × Identity)
unfolding read read_status check_status validate_status require_in
read_back raw = read_status writer publisher py raw brake_health

reported : String → State writer publisher → Result Decision × State writer publisher
unfolding handle_gateway_status read_back publish is_pending is_terminal is_success same_endpoint
    erase handled
reported raw p = handle_gateway_status writer publisher py status_path raw p

published : Bool → Decision
published success = record {
  accepted = true;
  reason = "GATEWAY_STATUS_PUBLISHED";
  forwarded = false;
  application_success = success;
}

-- An applied status leaves the request pending; an expired one does not.
report_runs :
    ((reported "APPLIED" after_set).0 ≡ ok (published true))
    × ((reported "EXPIRED" after_set).0 ≡ ok (published false))
    × ((reported "APPLIED" after_set).1.pending ≡ after_set.pending)
    × ((reported "EXPIRED" after_set).1.pending ≡ [])
    × ((reported "EXPIRED" fresh).0 ≡ ok (refused "REPLAY_DETECTED"))
unfolding reported published
report_runs = (refl, refl, refl, refl, refl)

handle_gateway_status-accepted_example :
    (endpoint : Endpoint) × (fs : Fields) × (i : Identity) × (lookup status_path endpoint_by_status
      ≡ some endpoint)
    × (read_status writer publisher py "APPLIED" endpoint ≡ ok (fs, i))
    × IsPublished writer publisher py endpoint "APPLIED" fs i
        (published true)
        after_set
        (handle_gateway_status writer publisher py status_path "APPLIED" after_set).1
unfolding reported published
handle_gateway_status-accepted_example =
    handle_gateway_status-accepted writer publisher py status_path "APPLIED" after_set
      (published true) refl refl

terminal_once_example :
    handle_gateway_status writer publisher py status_path "EXPIRED"
      (handle_gateway_status writer publisher py status_path "EXPIRED" after_set).1
    ≡ (
      ok (refused "REPLAY_DETECTED"),
      (handle_gateway_status writer publisher py status_path "EXPIRED" after_set).1,
    )
unfolding reported published gateway_status
terminal_once_example =
    terminal_once writer publisher py status_path "EXPIRED" after_set (published false) brake_health
      (gateway_status "EXPIRED") (uuid, (uuid, 1)) refl refl refl refl refl

abbrev some_messages : List Message
some_messages =
    on_request service path "set" (at 1_000_000) 1_000_000
    ∷ on_status status_path "APPLIED"
    ∷ on_request service path "clear" (at 2_000_000) 2_000_000
    ∷ on_status status_path "EXPIRED"
    ∷ []

tables-IsBounded_example : IsBounded (serve writer publisher py some_messages fresh)
tables-IsBounded_example = tables-IsBounded writer publisher py some_messages [] []

handle_request-IsFresh_example :
    (fs : Fields) × (canonical_object py "set" 2048 ≡ ok fs) × IsFresh py fs (at 1_000_000)
unfolding handled
handle_request-IsFresh_example =
    handle_request-IsFresh writer publisher py service path "set" (at 1_000_000) 1_000_000 fresh
      forwarded refl refl
