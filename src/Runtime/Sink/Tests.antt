-- ===== src/Runtime/Sink/Tests.antt =====
-- The theorems on `KuksaSink` at a concrete databroker, and runs of the code.
use aos_vehicle_platform.Prelude.{
  ℕ, ◌+◌, String, ◌≡◌, ◌⊎◌, refl, Bool, true, false, Option, none, some, List, [], ◌∷◌, arith,
  Result, ok, err, key_error, kuksa_unavailable, other_error, value_error,
  provider_credential_unavailable, string_eq, nat_eq,
}
use aos_vehicle_platform.Prelude.Dict.{lookup}
use aos_vehicle_platform.Prelude.Text.{every}
use aos_vehicle_platform.Bridge.Signal.{Value, SignalSpec, uint8_percent}
use aos_vehicle_platform.Bridge.Snapshot.{Values}
use aos_vehicle_platform.Runtime.Sink.{
  Databroker, KuksaSink, publication_budget, wait_for, connect, publish, publish_status,
  read_advisory_targets, updates_of, value_at, latest_after, later, is_unusable, raised_by_publish,
  close, close_and_raise, raise_after, disconnected, opened, use_token, wait_until, nap,
  set_in_time, after_set, after_wait, after_connect, present,
}
use aos_vehicle_platform.Runtime.Sink.Sent.{IsSent, publish-IsSent}
use aos_vehicle_platform.Runtime.Sink.Failed.{IsFailed, publish-IsFailed}
use aos_vehicle_platform.Runtime.Sink.Waiting.{IsClock, Ends, wait_for_terminates}
use aos_vehicle_platform.Runtime.Sink.Published.{handle_message-IsSent}
use aos_vehicle_platform.Runtime.Tests.{py}
use aos_vehicle_platform.Runtime.Sink.{kuksa_sink}
use aos_vehicle_platform.Bridge.State.Retained.{
  Call, message, unavailable, calls, Shows, logged, without_log, calls_shown,
}
use aos_vehicle_platform.Bridge.State.{
  Bridge, new_bridge, handle_message, handle_frame, same_as_last,
}
use aos_vehicle_platform.Bridge.Snapshot.{cleared}
use aos_vehicle_platform.Bridge.Snapshot.{
  Snapshot, parse_snapshot, signal_by_path, parse_data_point, cleared_onto, finish, timestamps,
  parse_points,
}
use aos_vehicle_platform.Bridge.Snapshot.Complete.{CoversAt}
use aos_vehicle_platform.Python.{is_str, get_or_null, get, has_key, items, is_utc}
use aos_vehicle_platform.Prelude.{option_eq, contains}
use aos_vehicle_platform.Prelude.Dict.{insert}
use aos_vehicle_platform.Prelude.Text.{ends_with_z, drop_last, sorted}

-- Two clocks that only `sleep` and a reading move, a token, and what was set.
record Guest : Type 0 where
  uptime : ℕ
  clock : ℕ
  token : Option String
  refuses : Bool
  shown : List Values

later_by : ℕ → Guest → Guest
later_by d g = record g { uptime = g.uptime + d; clock = g.clock + d }

set_values : Values → Guest → Result (Unit {0}) × Guest
set_values values g = elim g.refuses [
  | true ↦ (err other_error, g)
  | false ↦ (ok tt, record g { shown = values ∷ g.shown })
]

abbrev databroker : Databroker
databroker = record {
  World = Guest;
  Client = String;
  monotonic = λ g. g.uptime;
  time = λ g. g.clock;
  sleep = later_by;
  pass = later_by 1;
  read_token = λ g. (g.token, g);
  connected_client = λ token g. (ok token, g);
  set = λ client values timeout g. set_values values g;
  set_text = λ client path text timeout g. (ok tt, g);
  get_target_values = λ client paths timeout g. (ok (("a", some "x") ∷ ("b", none) ∷ []), g);
  disconnect = λ client g. (ok tt, g);
}

is_clock : IsClock databroker
unfolding later_by
is_clock = record {
  pass_forward = λ g. omega arith;
  sleep_forward = λ d g. omega arith;
  read_forward = λ g. omega arith;
  connected_forward = λ token g. omega arith;
}

signals : List SignalSpec
signals =
    record { path = "Brake"; convert = uint8_percent }
    ∷ record { path = "Tire"; convert = uint8_percent }
    ∷ []

frame_at : ℕ → Values
frame_at t = ("Tire", none) ∷ ("Brake", some (record { value = Value.int 40; timestamp = t })) ∷ []

-- A frame whose time is 120 ms ahead of the guest.
frame : Values
unfolding frame_at
frame = frame_at 1_120_000

guest : Guest
guest = record { uptime = 7; clock = 1_000_000; token = some "secret"; refuses = false; shown = [] }

abbrev unconnected : Guest → KuksaSink databroker
unconnected g = record { client = none; world = g }

published : Guest → Values → Result (Unit {0}) × KuksaSink databroker
unfolding publish updates_of value_at latest_after later lookup string_eq connect use_token opened
    is_unusable nat_eq every wait_for wait_until nap set_in_time after_set after_wait after_connect
    close_and_raise raise_after close disconnected raised_by_publish later_by set_values signals
published g values = publish databroker signals values (unconnected g)

sent_in_order :
    (published guest frame).1.world.shown
    ≡ (("Brake", some (record { value = Value.int 40; timestamp = 1_120_000 }))
        ∷ ("Tire", none)
        ∷ [])
      ∷ []
unfolding published guest frame
sent_in_order = refl

refused : (published (record guest { refuses = true }) frame).0 ≡ err kuksa_unavailable
unfolding published guest frame
refused = refl

no_token : (published (record guest { token = none }) frame).0 ≡ err provider_credential_unavailable
unfolding published guest frame
no_token = refl

-- A frame two seconds ahead is not waited for.
too_far : (published guest (frame_at 3_000_000)).0 ≡ err kuksa_unavailable
unfolding published guest frame_at
too_far = refl

missing : (published guest []).0 ≡ err (key_error "Brake")
unfolding published guest
missing = refl

other_path :
    (publish_status databroker "Vehicle.Speed" "{}" (unconnected guest)).0
    ≡ err (value_error "unauthorized Gateway status path")
unfolding publish_status lookup string_eq
other_path = refl

observed_targets :
    (read_advisory_targets databroker (record { client = some "c"; world = guest })).0
    ≡ ok (("a", "x") ∷ [])
unfolding read_advisory_targets connect present
observed_targets = refl

refusing : Guest
unfolding guest
refusing = record guest { refuses = true }

is_sent : publish databroker signals frame (unconnected guest) ≡ (ok tt, (published guest frame).1)
unfolding published guest frame
is_sent = refl

is_failed :
    publish databroker signals frame (unconnected refusing)
    ≡ (err kuksa_unavailable, (published refusing frame).1)
unfolding published guest frame refusing
is_failed = refl

publish-IsSent_example :
    IsSent databroker signals frame (unconnected guest) (published guest frame).1
publish-IsSent_example =
    publish-IsSent databroker signals frame (unconnected guest) (published guest frame).1 is_sent

publish-IsFailed_example :
    ((path : String) × (lookup path frame ≡ none)
      × (kuksa_unavailable ≡ key_error path)
      × ((published refusing frame).1 ≡ unconnected refusing))
    ⊎ IsFailed databroker kuksa_unavailable (published refusing frame).1
publish-IsFailed_example =
    publish-IsFailed databroker is_clock signals frame kuksa_unavailable (unconnected refusing)
      (published refusing frame).1 is_failed

connected_guest : KuksaSink databroker
connected_guest = record { client = some "secret"; world = later_by 1 guest }

does_connect :
    connect databroker (record (unconnected guest) { world = databroker.pass guest })
    ≡ (ok "secret", connected_guest)
unfolding connect use_token opened is_unusable nat_eq every string_eq connected_guest guest later_by
does_connect = refl

wait_for_terminates_example :
    Ends (
      wait_for databroker
        (some 1_120_000)
        (guest.uptime + publication_budget)
        connected_guest.world)
wait_for_terminates_example =
    wait_for_terminates databroker is_clock (unconnected guest) connected_guest "secret"
      (some 1_120_000) does_connect

-- The bridge of `run` on this guest, and the frame that it takes.
bridge : Bridge (KuksaSink databroker)
bridge = record {
  sink = unconnected guest;
  freshness_timeout = 1_000_000;
  signals = record { path = "Brake"; convert = uint8_percent } ∷ [];
  require_complete_frames = true;
  last_publish_at = none;
  last_source_timestamp = none;
  last_source_values = none;
  unavailable = true;
}

snapshot : Snapshot
snapshot = record {
  values = ("Brake", some (record { value = Value.int 40; timestamp = 1 })) ∷ [];
  invalid_paths = [];
  complete = true;
  source_timestamp = some 1;
  repeated = false;
}

taken : Result Snapshot × Bridge (KuksaSink databroker)
taken = handle_message (kuksa_sink databroker bridge.signals) py 7 "frame" "s1" bridge

is_taken : taken.0 ≡ ok snapshot
unfolding taken bridge snapshot handle_message handle_frame parse_snapshot py string_eq nat_eq
    option_eq is_str get_or_null get has_key items lookup insert contains signal_by_path
    parse_data_point ends_with_z drop_last is_utc cleared_onto finish timestamps sorted parse_points
    uint8_percent same_as_last publish updates_of value_at latest_after later connect use_token
    opened is_unusable every wait_for wait_until nap set_in_time after_set after_wait after_connect
    later_by set_values guest
is_taken = refl

handle_message-IsSent_example :
    (t : ℕ) × (snapshot.source_timestamp ≡ some t)
    × CoversAt bridge.signals snapshot.values t
    × IsSent databroker bridge.signals snapshot.values (unconnected guest) taken.1.sink
unfolding taken bridge snapshot
handle_message-IsSent_example =
    handle_message-IsSent databroker py 7 "frame" "s1" snapshot bridge refl is_taken refl refl

-- The bridge with the record of its publications.
abbrev recorded : Bridge (KuksaSink databroker × Option Values)
recorded = record {
  sink = (unconnected guest, none);
  freshness_timeout = 1_000_000;
  signals = bridge.signals;
  require_complete_frames = true;
  last_publish_at = none;
  last_source_timestamp = none;
  last_source_values = none;
  unavailable = false;
}

abbrev frame_then_withdrawn : List Call
frame_then_withdrawn = message 7 "frame" "s1" ∷ unavailable ∷ []

calls_shown_example :
    Shows
      (calls
        (logged (kuksa_sink databroker bridge.signals))
        py
        frame_then_withdrawn
        recorded).unavailable
      (calls
        (logged (kuksa_sink databroker bridge.signals))
        py
        frame_then_withdrawn
        recorded).last_source_values
      (cleared bridge.signals)
      (calls
        (logged (kuksa_sink databroker bridge.signals))
        py
        frame_then_withdrawn
        recorded).sink.1
    × (without_log
          (calls (logged (kuksa_sink databroker bridge.signals)) py frame_then_withdrawn recorded)
        ≡ calls
            (kuksa_sink databroker bridge.signals)
            py
            frame_then_withdrawn
            (without_log recorded))
    × (new_bridge
          (kuksa_sink databroker bridge.signals)
          (unconnected guest)
          1_000_000
          bridge.signals
          true
        ≡ ok (without_log recorded))
unfolding new_bridge nat_eq
calls_shown_example =
    calls_shown (kuksa_sink databroker bridge.signals) py frame_then_withdrawn (unconnected guest)
      1_000_000 bridge.signals true recorded refl
