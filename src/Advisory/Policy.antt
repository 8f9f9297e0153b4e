-- ===== src/Advisory/Policy.antt =====
-- advisory.py: the class `AdvisoryPolicy`, over any `VissWriter` and `StatusPublisher`.
pub mod Bounds
pub mod Forward
pub mod Trace
pub mod Replay
pub mod Gateway
pub mod Writer
pub mod Fresh
use aos_vehicle_platform.Prelude.{
  ℕ, suc, ◌-◌, ltb, leb, String, Bool, true, false, not, ◌&&◌, ◌||◌, ◌*◌,
}
use aos_vehicle_platform.Prelude.{Option, none, some, List, [], ◌∷◌, Result, ok, err, Exception}
use aos_vehicle_platform.Prelude.{advisory_error, ◌==◌, ◌/=◌, string_eq, nat_eq, option_eq, pair_eq}
use aos_vehicle_platform.Prelude.{if◌then◌else◌, ◌>>=◌, ◌>>◌, contains}
use aos_vehicle_platform.Prelude.Lists.{length}
use aos_vehicle_platform.Prelude.Dict.{Dict, lookup, insert, insert_last, erase, trim}
use aos_vehicle_platform.Python.{Json, Fields, Library, Datetime, get_or_null, is_str, in_set}
use aos_vehicle_platform.Advisory.Endpoint.{
  Endpoint, endpoints, endpoint_by_status, same_endpoint, Caller, Decision, refused,
  max_request_bytes, max_status_bytes, min_refresh_interval, min_state_change_interval,
  replay_retention, replay_capacity_per_endpoint,
}
use aos_vehicle_platform.Advisory.Request.{
  Identity, identity_of, canonical_object, canonical_json, validate_request,
}
use aos_vehicle_platform.Advisory.Status.{check_status}

-- The protocols `VissWriter` and `StatusPublisher`.
pub record VissWriter : Type 1 where
  pub State : Type 0
  pub set_value : String → String → State → Result (Unit {0}) × State

pub record StatusPublisher : Type 1 where
  pub State : Type 0
  pub publish_status : String → String → State → Result (Unit {0}) × State

-- The canonical text of each request, and the time it came.
abbrev pub Replay : Type 0
Replay = Dict Identity (String × ℕ)

-- The operation and the recommendation.
abbrev pub RequestedState : Type 0
RequestedState = String × Option String

pub record Policy (V S : Type 0) : Type 0 where
  pub viss : V
  pub kuksa : S
  pub replay : Dict String Replay
  pub latest_sequence : Dict (String × String) ℕ
  pub last_forward : Dict String (ℕ × RequestedState)
  pub pending : Dict (String × Identity) Endpoint

-- `__init__`
abbrev pub new_policy : {V S : Type 0} → V → S → Policy V S
new_policy viss kuksa = record {
  viss = viss;
  kuksa = kuksa;
  replay = ("BRAKE_HEALTH_ADVISORY", []) ∷ ("TIRE_HEALTH_ADVISORY", []) ∷ [];
  latest_sequence = [];
  last_forward = [];
  pending = [];
}

-- `self._replay[endpoint_id]`; both endpoints have an entry from the start.
unfoldable pub replay_of : String → Dict String Replay → Replay
replay_of id replays = elim (lookup id replays) [ none ↦ [] | some r ↦ r ]

-- `_expire_replay`
unfoldable pub expire_replay : ℕ → Replay → Replay
expire_replay now [] = []
expire_replay now ((identity, (canonical, at)) ∷ rest) =
    let expired = expire_replay now rest in
    if ltb (now - at) replay_retention then (identity, (canonical, at)) ∷ rest else expired

-- What `handle_request` reads of a validated request.
pub record Request : Type 0 where
  pub identity : Identity
  pub canonical : String
  pub requested_state : RequestedState

optional_text : Json → Option String
optional_text (Json.str s) = some s
optional_text _ = none

operation_text : Json → String
operation_text (Json.str s) = s
operation_text _ = ""

unfoldable pub requested_state_of : Fields → RequestedState
unfolding optional_text operation_text
requested_state_of fs =
    (operation_text (get_or_null "operation" fs), optional_text (get_or_null "recommendation" fs))

-- `last_forward is not None and elapsed < minimum`
unfoldable pub is_rate_limited : ℕ → RequestedState → Option (ℕ × RequestedState) → Bool
is_rate_limited now requested none = false
is_rate_limited now requested (some (at, state)) =
    ltb (now - at) (if requested == state then min_refresh_interval else min_state_change_interval)

-- `latest is not None and sequence <= latest`
unfoldable pub is_rollback : ℕ → Option ℕ → Bool
is_rollback sequence none = false
is_rollback sequence (some latest) = leb sequence latest

abbrev pub capacity : ℕ
capacity = replay_capacity_per_endpoint

module _ (V : VissWriter) (S : StatusPublisher) where
  abbrev pub State : Type 0
  State = Policy V.State S.State

  -- The assignments before the write.
  unfoldable pub remember : Endpoint → Request → ℕ → Replay → State → State
  unfolding trim
  remember endpoint request now replay p =
      let id = endpoint.endpoint_id in
      let (request_id, (epoch, sequence)) = request.identity in
      record p {
        replay =
            insert id (trim capacity (insert_last request.identity (request.canonical, now) replay))
              p.replay;
        latest_sequence = trim (2 * capacity) (insert_last (id, epoch) sequence p.latest_sequence);
        last_forward = insert id (now, request.requested_state) p.last_forward;
        pending = trim (2 * capacity) (insert_last (id, request.identity) endpoint p.pending);
      }

  -- `except Exception`
  written : Result (Unit {0}) → Decision
  written (ok u) = record {
    accepted = true;
    reason = "FORWARDED_TO_GATEWAY";
    forwarded = true;
    application_success = false;
  }
  written (err e) = refused "INTERNAL_ERROR"

  unfoldable pub forward : Endpoint → Request → State → Decision × State
  unfolding written
  forward endpoint request p =
      let (r, viss) = V.set_value endpoint.request_path request.canonical p.viss in
      (written r, record p { viss = viss })

  unfoldable pub replayed : String → String → Decision
  replayed canonical previous =
      if previous == canonical
      then record {
        accepted = true;
        reason = "IDEMPOTENT_NO_NEW_EFFECT";
        forwarded = false;
        application_success = false;
      }
      else refused "REPLAY_DETECTED"

  -- The request is no replay; `replay` is what is left of the endpoint's after the expiry.
  unfoldable pub admit : Endpoint → Request → ℕ → Replay → State → Decision × State
  admit endpoint request now replay p =
      let id = endpoint.endpoint_id in
      let (request_id, (epoch, sequence)) = request.identity in
      if is_rollback sequence (lookup (id, epoch) p.latest_sequence)
      then (refused "SEQUENCE_ROLLBACK", p)
      else if is_rate_limited now request.requested_state (lookup id p.last_forward)
      then (refused "RATE_LIMITED", p)
      else forward endpoint request (remember endpoint request now replay p)

  -- `handle_request` from `_expire_replay` on.
  unfoldable pub decide : Endpoint → Request → ℕ → State → Decision × State
  decide endpoint request now p =
      let id = endpoint.endpoint_id in
      let replay = expire_replay now (replay_of id p.replay) in
      let p' : State = record p { replay = insert id replay p.replay } in
      elim (lookup request.identity replay) [
        | some previous ↦ (replayed request.canonical previous.0, p')
        | none ↦ admit endpoint request now replay p'
      ]

  -- `except AdvisoryError`: any other exception goes to the caller.
  unfoldable pub refused_by : Exception → Result Decision
  refused_by (advisory_error reason) = ok (refused reason)
  refused_by e = err e

  unfoldable pub is_authorised : Caller → Endpoint → Bool
  is_authorised caller endpoint =
      caller.authority == "SERVICE_WRITE"
      && caller.service_id == endpoint.owner_service
      && caller.functional_profile == endpoint.functional_profile

  module _ (py : Library) where
    -- The `try` block, and the fields that are read after it.
    unfoldable pub read_request : String → Endpoint → Datetime → Result Request
    read_request raw endpoint now_utc = do
      fields ← canonical_object py raw max_request_bytes
      validate_request py fields endpoint now_utc
      identity ← identity_of fields
      ok (record {
        identity = identity;
        canonical = canonical_json py fields;
        requested_state = requested_state_of fields;
      })

    unfoldable pub handle_request :
        Caller → String → String → Datetime → ℕ → State → Result Decision × State
    handle_request caller path raw now_utc now p = elim (lookup path endpoints) [
      | none ↦ (ok (refused "UNAUTHORIZED_PATH"), p)
      | some endpoint ↦
          if not (is_authorised caller endpoint)
          then (ok (refused "UNAUTHORIZED_SOURCE"), p)
          else (elim (read_request raw endpoint now_utc) [
            | err e ↦ (refused_by e, p)
            | ok request ↦ let (d, p') = decide endpoint request now p in (ok d, p')
          ])
    ]

    -- A status, its identity and its canonical text.
    unfoldable pub read_status : String → Endpoint → Result (Fields × Identity)
    read_status raw endpoint = do
      fields ← canonical_object py raw max_status_bytes
      check_status py fields endpoint
      identity ← identity_of fields
      ok (fields, identity)

    is_state_in : Fields → List String → Bool
    is_state_in fs texts = elim (get_or_null "state" fs) [
      | Json.str s ↦ contains texts s
      | _ ↦ false
    ]

    unfoldable pub is_terminal : Fields → Bool
    unfolding is_state_in
    is_terminal fs = is_state_in fs ("CLEARED" ∷ "REJECTED" ∷ "EXPIRED" ∷ "FAILED" ∷ [])

    unfoldable pub is_success : Fields → Bool
    unfolding is_state_in
    is_success fs = is_state_in fs ("APPLIED" ∷ "CLEARED" ∷ [])

    -- `self._pending.get(identity) != endpoint`
    unfoldable pub is_pending : Endpoint → Option Endpoint → Bool
    is_pending endpoint none = false
    is_pending endpoint (some e) = same_endpoint e endpoint

    unfoldable pub publish : Endpoint → Fields → Identity → State → Result Decision × State
    publish endpoint fs identity p =
        let key : String × Identity = (endpoint.endpoint_id, identity) in
        let (r, kuksa) = S.publish_status endpoint.status_path (canonical_json py fs) p.kuksa in
        elim r [
          | err e ↦ (err e, record p { kuksa = kuksa })
          | ok u ↦
              let d : Decision = record {
                accepted = true;
                reason = "GATEWAY_STATUS_PUBLISHED";
                forwarded = false;
                application_success = is_success fs;
              } in
              (
                ok d,
                record p {
                  kuksa = kuksa;
                  pending = if is_terminal fs then erase key p.pending else p.pending;
                },
              )
        ]

    unfoldable pub handle_gateway_status : String → String → State → Result Decision × State
    unfolding is_pending
    handle_gateway_status path raw p = elim (lookup path endpoint_by_status) [
      | none ↦ (ok (refused "UNAUTHORIZED_PATH"), p)
      | some endpoint ↦ elim (read_status raw endpoint) [
        | err e ↦ (refused_by e, p)
        | ok (fs, identity) ↦
            let published = publish endpoint fs identity p in
            if is_pending endpoint (lookup (endpoint.endpoint_id, identity) p.pending)
            then published
            else (ok (refused "REPLAY_DETECTED"), p)
      ]
    ]

-- What reaches the policy: a request with the two clocks, or a gateway status.
pub data Message : Type 0 where
  on_request : Caller → String → String → Datetime → ℕ → Message
  on_status : String → String → Message

-- Exceptions end the call, and the caller goes on.
unfoldable pub serve :
    (V : VissWriter) (S : StatusPublisher) → Library → List Message → State V S → State V S
serve V S py [] p = p
serve V S py (on_request caller path raw now_utc now ∷ ms) p =
    serve V S py ms (handle_request V S py caller path raw now_utc now p).1
serve V S py (on_status path raw ∷ ms) p =
    serve V S py ms (handle_gateway_status V S py path raw p).1
