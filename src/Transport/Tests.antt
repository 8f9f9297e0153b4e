-- ===== src/Transport/Tests.antt =====
-- The theorems on advisory_transport.py at concrete sessions, and runs of the code.
use aos_vehicle_platform.Prelude.{
  ℕ, ◌≤◌, String, ◌≡◌, refl, Bool, true, false, Option, none, some, List, [], ◌∷◌, Result, ok, err,
  json_decode_error, ◌==◌, string_eq, nat_eq, option_eq, pair_eq, if◌then◌else◌, contains,
}
use aos_vehicle_platform.Prelude.Lists.{length}
use aos_vehicle_platform.Prelude.Dict.{lookup, insert, erase}
use aos_vehicle_platform.Prelude.Text.{ends_with_z, drop_last}
use aos_vehicle_platform.Python.{
  Json, Fields, Library, Datetime, pos, get, get_or_null, has_key, keys, same_set, is_str,
  is_subset, items,
}
use aos_vehicle_platform.Advisory.Request.{canonical_object, schema_failure}
use aos_vehicle_platform.Advisory.Policy.{
  StatusPublisher, refused_by, handle_gateway_status, read_status,
}
use aos_vehicle_platform.Advisory.Policy.Bounds.{IsBounded}
use aos_vehicle_platform.Bridge.Signal.{base_signals}
use aos_vehicle_platform.Bridge.Snapshot.{Progress, parse_points}
use aos_vehicle_platform.Transport.Producer.{
  Targets, is_request_path, is_availability_path, producer_ready, value_ready, is_recent,
}
use aos_vehicle_platform.Transport.Session.{Environment, in_flight, set_value, send_set, after_send}
use aos_vehicle_platform.Transport.InFlight.{IsSingle, IsKnown}
use aos_vehicle_platform.Transport.{
  State, new_transport, with_link, attach, detach, report, expire_one, expire_pending, due_at,
  is_confirmed, is_held, announce, after_announce, current_of, offer, offers, is_seen, take_target,
  take_targets, after_offers, tick_attached, tick_session, tick,
}
use aos_vehicle_platform.Transport.Consume.{
  is_status_path, named_status, status_point, is_status_point, all_status, status_only, points_of,
  settle, take_response, consume_set, take_status, after_status, take_value, after_value,
  take_point, take_points, after_points, consume_points, consume_message, consume_value, consume,
}
use aos_vehicle_platform.Transport.Trace.{
  Call, on_attach, on_tick, on_consume, apply, run, run-IsBounded,
}
use aos_vehicle_platform.Transport.Deadline.{IsTimely, IsQuiet, tick-IsQuiet}
use aos_vehicle_platform.Prelude.{◌++◌}
use aos_vehicle_platform.Bridge.Snapshot.{subscription_object, path_items}
use aos_vehicle_platform.Transport.Subscription.{subscription, status_signals, subscription-eq}
use aos_vehicle_platform.Transport.Telemetry.{IsApart, consume-parse_points}

abbrev status_path : String
status_path = "Vehicle.OEM.BrakeHealth.Advisory.GatewayStatus"

-- A producer's readiness, the accepted response to the first request, and an event with a status.
readiness : Fields
readiness = Fields.field "observedAt" (Json.str "1Z") (
    Fields.field "ready" (Json.bool true)
      (Fields.field "schemaVersion" (Json.int (pos 1)) Fields.end))

response : Fields
response =
    Fields.field "action" (Json.str "set")
      (Fields.field "requestId" (Json.str "vdp-advisory-a") Fields.end)

status_event : Fields
status_event = Fields.field "action" (Json.str "subscription") (
    Fields.field "subscriptionId" (Json.str "s1") (
      Fields.field "data"
        (Json.obj (
          Fields.field "path" (Json.str status_path) (
            Fields.field "dp" (Json.obj (Fields.field "value" (Json.str "not a status") Fields.end))
              Fields.end)))
        Fields.end))

load : String → Result Json
unfolding readiness response status_event
load raw =
    if raw == "ready"
    then ok (Json.obj readiness)
    else if raw == "response"
    then ok (Json.obj response)
    else if raw == "event"
    then ok (Json.obj status_event)
    else err json_decode_error

read_time : String → Option Datetime
read_time raw =
    if raw == "1+00:00"
    then some (record { instant = 1_000_000; utcoffset = some (pos 0) })
    else none

py : Library
unfolding load read_time
py = record {
  loads = load;
  dumps = λ j. "ready";
  dumps_unicode = λ j. "ready";
  float_of = λ raw. none;
  fromisoformat = read_time;
  isoformat_z = λ d. "1Z";
}

-- The clock stands still; the IDs are the texts that are left; the texts sent are kept.
pub record World : Type 0 where
  pub now : ℕ
  pub ids : List String
  pub sent : List String

next_id : List String → String × List String
next_id [] = ("z", [])
next_id (id ∷ ids) = (id, ids)

abbrev environment : Environment
environment = record {
  State = World;
  monotonic = λ w. (w.now, w);
  uuid4 = λ w. ((next_id w.ids).0, record w { ids = (next_id w.ids).1 });
  send = λ text w. (ok tt, record w { sent = text ∷ w.sent });
}

abbrev publisher : StatusPublisher
publisher = record { State = List String; publish_status = λ path value log. (ok tt, value ∷ log) }

abbrev at : ℕ → Datetime
at n = record { instant = n; utcoffset = some (pos 0) }

abbrev targets : Targets
targets = record {
  ready = true;
  values = ("Vehicle.OEM.BrakeHealth.Advisory.Readiness", "ready") ∷ [];
}

abbrev world : World
world = record { now = 7; ids = "a" ∷ "b" ∷ []; sent = [] }

abbrev fresh : State environment publisher py
fresh = new_transport world []

runs : List (Call World) → State environment publisher py
unfolding run apply attach detach with_link tick tick_session tick_attached offers offer current_of
    producer_ready value_ready is_recent announce after_announce is_held due_at is_confirmed
    in_flight set_value send_set after_send next_id is_request_path is_availability_path
    after_offers take_targets take_target report expire_pending expire_one consume consume_value
    consume_message consume_set take_response settle consume_points after_points take_points
    take_point after_value take_value take_status after_status status_point named_status
    is_status_path handle_gateway_status read_status canonical_object schema_failure refused_by
    is_seen points_of lookup insert erase contains string_eq nat_eq get get_or_null has_key keys
    same_set is_subset is_str items ends_with_z drop_last py status_only all_status is_status_point
runs cs = run environment publisher py cs fresh

abbrev some_calls : List (Call World)
some_calls = on_attach ∷ on_tick (at 2_000_000) targets ∷ []

-- Both availabilities are sent at the first tick; the response confirms the first.
run_calls :
    ((runs some_calls).policy.viss.pending
      ≡ ("vdp-advisory-a", ("Vehicle.OEM.BrakeHealth.Advisory.Availability", 2_000_007))
        ∷ ("vdp-advisory-b", ("Vehicle.OEM.TireHealth.Advisory.Availability", 2_000_007))
        ∷ [])
    × ((runs (
          on_attach
          ∷ on_tick (at 2_000_000) targets
          ∷ on_consume "response" "s1"
          ∷ [])).availability_confirmed
        ≡ ("Vehicle.OEM.BrakeHealth.Advisory.Availability", true) ∷ [])
unfolding runs
run_calls = (refl, refl)

abbrev reached : State environment publisher py
reached = run environment publisher py some_calls fresh

run-IsBounded_example :
    IsSingle reached.policy.viss.pending
    × IsKnown reached.policy.viss.pending
    × (length reached.policy.viss.pending ≤ 4)
    × IsBounded reached.policy
run-IsBounded_example = run-IsBounded environment publisher py some_calls world [] reached refl

-- An overdue request, and no session.
abbrev overdue : State environment publisher py
overdue = record fresh {
  policy = record fresh.policy {
    viss = record {
      environment = record world { now = 9_000_000 };
      attached = false;
      pending = ("a", ("Vehicle.OEM.BrakeHealth.Advisory.Request", 2_000_007)) ∷ [];
    };
  };
}

tick-IsQuiet_example :
    ((tick environment publisher py (at 3) targets overdue).0 ≡ ok tt)
    × IsQuiet
        (with_link overdue.policy.viss overdue)
        (tick environment publisher py (at 3) targets overdue).1
    × IsTimely 9_000_000
        (tick environment publisher py (at 3) targets overdue).1.policy.viss.pending
tick-IsQuiet_example = tick-IsQuiet environment publisher py (at 3) targets overdue refl

consumed : String → Result Bool × State environment publisher py
unfolding runs status_event
consumed raw = consume environment publisher py raw "s1" fresh

consume_event : (consume environment publisher py "event" "s1" fresh).0 ≡ ok true
unfolding consumed
consume_event = refl

signals-IsApart : IsApart (base_signals py)
unfolding is_status_path lookup string_eq
signals-IsApart = (refl, (refl, (refl, (refl, (refl, (refl, (refl, tt)))))))

loaded_event : py.loads "event" ≡ ok (Json.obj status_event)
unfolding py string_eq
loaded_event = refl

no_set : is_str (get_or_null "action" status_event) "set" ≡ false
unfolding status_event is_str get_or_null get string_eq
no_set = refl

consume-parse_points_example :
    (points : List Json) × (points_of (get "data" status_event) ≡ some points)
    × ((p : Progress) → parse_points py (base_signals py) points p ≡ ok p)
consume-parse_points_example =
    consume-parse_points environment publisher py "event" "s1" status_event fresh (base_signals py)
      signals-IsApart loaded_event no_set consume_event

-- A text that reads as the bridge's request.
asking : Library
unfolding py subscription_object path_items
asking = record py { loads = λ raw. ok (subscription_object "r1" 100 (base_signals py)) }

asking_reads : asking.loads "request" ≡ ok (subscription_object "r1" 100 (base_signals py))
unfolding asking
asking_reads = refl

subscription-eq_example :
    subscription asking "request"
    ≡ ok (asking.dumps (subscription_object "r1" 100 (base_signals py ++ status_signals)))
subscription-eq_example = subscription-eq asking "request" "r1" 100 (base_signals py) asking_reads
