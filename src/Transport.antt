-- ===== src/Transport.antt =====
-- advisory_transport.py: `AdvisoryTransport`. `Producer` has the observation of the producers, `Session`
-- the requests in flight; logging is left out of `_report`.
mod Tests
pub mod Producer
pub mod Session
pub mod Consume
pub mod InFlight
pub mod Health
pub mod Trace
pub mod Deadline
pub mod Telemetry
pub mod Subscription
use aos_vehicle_platform.Prelude.{
  ℕ, ◌+◌, ltb, leb, String, ◌<>◌, Bool, true, false, not, ◌&&◌, ◌||◌, Option, none, some, List, [],
  ◌∷◌, Result, ok, err, other_error, ◌==◌, string_eq, option_eq, nat_eq, if◌then◌else◌, contains,
}
use aos_vehicle_platform.Prelude.Dict.{Dict, lookup, insert, erase}
use aos_vehicle_platform.Python.{
  Json, pos, Items, Fields, Library, Datetime, get, get_or_null, has_key, items, is_str,
}
use aos_vehicle_platform.Advisory.Endpoint.{
  Endpoint, endpoints, endpoint_by_status, Caller, Decision,
}
use aos_vehicle_platform.Advisory.Policy.{
  StatusPublisher, Policy, new_policy, handle_request, handle_gateway_status,
}
use aos_vehicle_platform.Transport.Producer.{
  observed_paths, is_request_path, is_availability_path, producer_ready, Targets,
}
use aos_vehicle_platform.Transport.Session.{Environment, Link, in_flight, set_value, link_writer}

-- `Bool` as `==` of two Python bools.
bool_equals : Bool → Bool → Bool
bool_equals true b = b
bool_equals false b = not b

pub record Transport (E S : Type 0) : Type 0 where
  -- The policy's writer is the transport itself.
  pub policy : Policy (Link E) S
  pub seen_targets : Dict String String
  pub seen_statuses : Dict String String
  pub last_result : Dict String String
  pub availability_confirmed : Dict String Bool
  pub availability_pending : Dict String Bool
  pub availability_next_attempt : Dict String ℕ
  pub availability_heartbeat : Dict String ℕ

-- `__init__`
abbrev pub new_transport : {E S : Type 0} → E → S → Transport E S
new_transport environment kuksa = record {
  policy = new_policy (record { environment = environment; attached = false; pending = [] }) kuksa;
  seen_targets = [];
  seen_statuses = [];
  last_result = [];
  availability_confirmed = [];
  availability_pending = [];
  availability_next_attempt = [];
  availability_heartbeat = [];
}

-- `self.availability_….get(path, 0.0)`
unfoldable pub due_at : String → Dict String ℕ → ℕ
due_at path d = elim (lookup path d) [ none ↦ 0 | some at ↦ at ]

-- `self.availability_confirmed.get(path) == current`
unfoldable pub is_confirmed : String → Bool → Dict String Bool → Bool
unfolding bool_equals
is_confirmed path current d = elim (lookup path d) [
  | none ↦ false
  | some confirmed ↦ bool_equals confirmed current
]

module _ {E S : Type 0} where
  abbrev pub link_of : Transport E S → Link E
  link_of t = t.policy.viss

  unfoldable pub with_link : Link E → Transport E S → Transport E S
  with_link link t = record t { policy = record t.policy { viss = link } }

  -- `attach`; the websocket is in the environment.
  unfoldable pub attach : Transport E S → Transport E S
  unfolding with_link
  attach t =
      let t' = with_link (record t.policy.viss { attached = true; pending = [] }) t in
      record t' {
        seen_statuses = [];
        availability_confirmed = [];
        availability_pending = [];
        availability_next_attempt = [];
        availability_heartbeat = [];
      }

  unfoldable pub detach : Transport E S → Transport E S
  unfolding with_link
  detach t =
      let t' = with_link (record t.policy.viss { attached = false; pending = [] }) t in
      record t' { availability_pending = [] }

  -- `_report`
  unfoldable pub report : String → String → Transport E S → Transport E S
  report path reason t = record t { last_result = insert path reason t.last_result }

  -- One overdue request of the first loop of `tick`.
  unfoldable pub expire_one : ℕ → String → String → Transport E S → Transport E S
  unfolding with_link report
  expire_one now request_id path t =
      let link = t.policy.viss in
      let t' = with_link (record link { pending = erase request_id link.pending }) t in
      report path "VISS_RESPONSE_TIMEOUT" (
        if is_availability_path path
        then record t' {
          availability_pending = erase path t'.availability_pending;
          availability_next_attempt = insert path (now + 1_000_000) t'.availability_next_attempt;
        }
        else t')

  -- `for request_id, (path, deadline) in list(self.pending.items())`
  unfoldable pub expire_pending : ℕ → Dict String (String × ℕ) → Transport E S → Transport E S
  expire_pending now [] t = t
  expire_pending now ((request_id, (path, deadline)) ∷ rest) t =
      expire_pending now rest (if leb deadline now then expire_one now request_id path t else t)

  -- One of the two `continue`s of the second loop is taken.
  unfoldable pub is_held : ℕ → String → Bool → Transport E S → Bool
  unfolding due_at is_confirmed
  is_held now path current t =
      in_flight path t.policy.viss.pending
      || ltb now (due_at path t.availability_next_attempt)
      || is_confirmed path current t.availability_confirmed
        && ltb now (due_at path t.availability_heartbeat)

-- What the transport says of a producer.
unfoldable pub availability_message : Library → Bool → Datetime → Json
availability_message py current now_utc = Json.obj (
    Fields.field "schemaVersion" (Json.int (pos 1)) (
      Fields.field "ready" (Json.bool current)
        (Fields.field "observedAt" (Json.str (py.isoformat_z now_utc)) Fields.end)))

module _ (E : Environment) (S : StatusPublisher) (py : Library) where
  abbrev pub State : Type 0
  State = Transport E.State S.State

  -- The rest of a method, which an exception skips.
  abbrev pub and_then :
      Result (Unit {0}) × State → (State → Result (Unit {0}) × State) → Result (Unit {0}) × State
  and_then (ok u, t) rest = rest t
  and_then (err e, t) rest = (err e, t)

  -- The writes of the second loop after `set_value`.
  unfoldable pub after_announce :
      ℕ → String → Bool → Result (Unit {0}) → State → Result (Unit {0}) × State
  after_announce now path current (err e) t = (err e, t)
  after_announce now path current (ok u) t = (
    ok tt,
    record t {
      availability_pending = insert path current t.availability_pending;
      availability_next_attempt = insert path (now + 100_000) t.availability_next_attempt;
    },
  )

  unfoldable pub announce : Datetime → ℕ → String → Bool → State → Result (Unit {0}) × State
  unfolding with_link availability_message after_announce
  announce now_utc now path current t =
      let (r, link) =
        set_value E py path (py.dumps (availability_message py current now_utc)) t.policy.viss in
      after_announce now path current r (with_link link t)

  -- `ready and producer_ready(values.get(source), now_utc)`
  unfoldable pub current_of : Datetime → Targets → String → Result Bool
  current_of now_utc targets source =
      let observed = producer_ready py (lookup source targets.values) now_utc in
      if targets.ready then observed else ok false

  -- One producer of the second loop of `tick`.
  unfoldable pub offer :
      Datetime → ℕ → Targets → String → String → State → Result (Unit {0}) × State
  offer now_utc now targets source path t = elim (current_of now_utc targets source) [
    | err e ↦ (err e, t)
    | ok current ↦
        let announced = announce now_utc now path current t in
        if is_held now path current t then (ok tt, t) else announced
  ]

  unfoldable pub offers :
      Datetime → ℕ → Targets → List (String × String) → State → Result (Unit {0}) × State
  offers now_utc now targets [] t = (ok tt, t)
  offers now_utc now targets ((source, path) ∷ rest) t =
      and_then (offer now_utc now targets source path t) (offers now_utc now targets rest)

  unfoldable pub after_ask : String → Result Decision → State → Result (Unit {0}) × State
  unfolding report
  after_ask path (err e) t = (err e, t)
  after_ask path (ok decision) t = (ok tt, report path decision.reason t)

  -- A target of the last loop of `tick`, which is new.
  unfoldable pub ask_policy :
      Datetime → ℕ → Endpoint → String → String → State → Result (Unit {0}) × State
  unfolding after_ask
  ask_policy now_utc now endpoint path raw t =
      let seen = insert path raw t.seen_targets in
      let caller : Caller = record {
        service_id = endpoint.owner_service;
        functional_profile = endpoint.functional_profile;
        authority = "SERVICE_WRITE";
      } in
      let (r, policy) =
        handle_request (link_writer E py) S py caller path raw now_utc now t.policy in
      after_ask path r (record t { policy = policy; seen_targets = seen })

  -- `self.seen_targets.get(path) == raw`
  unfoldable pub is_seen : String → String → Dict String String → Bool
  is_seen path raw d = elim (lookup path d) [ none ↦ false | some last ↦ last == raw ]

  unfoldable pub take_target : Datetime → ℕ → String → String → State → Result (Unit {0}) × State
  take_target now_utc now path raw t = elim (lookup path endpoints) [
    | none ↦ (ok tt, t)
    | some endpoint ↦
        let asked = ask_policy now_utc now endpoint path raw t in
        if is_seen path raw t.seen_targets || in_flight path t.policy.viss.pending
        then (ok tt, t)
        else asked
  ]

  unfoldable pub take_targets :
      Datetime → ℕ → Dict String String → State → Result (Unit {0}) × State
  take_targets now_utc now [] t = (ok tt, t)
  take_targets now_utc now ((path, raw) ∷ rest) t =
      and_then (take_target now_utc now path raw t) (take_targets now_utc now rest)

  -- `tick` after its second loop.
  unfoldable pub after_offers : Datetime → ℕ → Targets → State → Result (Unit {0}) × State
  unfolding report
  after_offers now_utc now targets t =
      let taken =
        take_targets now_utc now targets.values (report "transport" "KUKSA_TARGETS_READY" t) in
      if targets.ready then taken else (ok tt, report "transport" "KUKSA_TARGETS_UNAVAILABLE" t)

  -- `tick` from `ready, values = self.targets.snapshot()` on.
  unfoldable pub tick_attached : Datetime → ℕ → Targets → State → Result (Unit {0}) × State
  tick_attached now_utc now targets t =
      and_then (offers now_utc now targets observed_paths t) (after_offers now_utc now targets)

  -- `if self.websocket is None: return`
  unfoldable pub tick_session : Datetime → ℕ → Targets → State → Result (Unit {0}) × State
  tick_session now_utc now targets t =
      let ticked = tick_attached now_utc now targets t in
      if t.policy.viss.attached then ticked else (ok tt, t)

  -- `tick`; `targets` is what the observer has at that time.
  unfoldable pub tick : Datetime → Targets → State → Result (Unit {0}) × State
  unfolding with_link tick_session
  tick now_utc targets t =
      let (now, e) = E.monotonic t.policy.viss.environment in
      let t₁ = with_link (record t.policy.viss { environment = e }) t in
      tick_session now_utc now targets (expire_pending now t₁.policy.viss.pending t₁)
