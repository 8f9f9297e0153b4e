-- ===== src/Transport/Consume.antt =====
-- advisory_transport.py: `AdvisoryTransport.consume` and `subscription`.
use aos_vehicle_platform.Prelude.{
  ◌+◌, String, ◌<>◌, Bool, true, false, not, ◌&&◌, ◌||◌, Option, none, some, List, [], ◌∷◌, Result,
  ok, err, other_error, string_eq, if◌then◌else◌, contains,
}
use aos_vehicle_platform.Prelude.Dict.{lookup, insert, erase}
use aos_vehicle_platform.Python.{Json, Fields, Library, get, get_or_null, has_key, items, is_str}
use aos_vehicle_platform.Advisory.Endpoint.{endpoint_by_status, Decision}
use aos_vehicle_platform.Advisory.Policy.{StatusPublisher, handle_gateway_status}
use aos_vehicle_platform.Transport.Producer.{is_availability_path}
use aos_vehicle_platform.Transport.Session.{Environment, link_writer}
use aos_vehicle_platform.Transport.{State, with_link, report, is_seen}

-- `path in ENDPOINT_BY_STATUS`
unfoldable pub is_status_path : String → Bool
is_status_path path = elim (lookup path endpoint_by_status) [ none ↦ false | some endpoint ↦ true ]

-- The value of a point, if that is text.
value_of_datapoint : Json → Option String
value_of_datapoint (Json.obj datapoint) = elim (get_or_null "value" datapoint) [
  | Json.str value ↦ some value
  | _ ↦ none
]
value_of_datapoint _ = none

-- The path of a point and its value, by its fields `path` and `dp`, if it names a status.
unfoldable pub named_status : Json → Json → Option (String × Option String)
unfolding value_of_datapoint
named_status (Json.str path) datapoint =
    if is_status_path path then some (path, value_of_datapoint datapoint) else none
named_status _ datapoint = none

-- The same of a point, which may be no object.
unfoldable pub status_point : Json → Option (String × Option String)
unfolding named_status
status_point (Json.obj point) = named_status (get_or_null "path" point) (get_or_null "dp" point)
status_point _ = none

-- `isinstance(point, dict) and isinstance(point.get("path"), str) and point["path"] in ENDPOINT_BY_STATUS`
unfoldable pub is_status_point : Json → Bool
unfolding status_point
is_status_point point = elim (status_point point) [ none ↦ false | some named ↦ true ]

unfoldable pub all_status : List Json → Bool
all_status [] = true
all_status (point ∷ points) = is_status_point point && all_status points

-- `bool(points) and all(…)`
unfoldable pub status_only : List Json → Bool
status_only [] = false
status_only (point ∷ points) = all_status (point ∷ points)

-- `message.get("data", [])`, a single object in a list; `none` for anything else.
unfoldable pub points_of : Option Json → Option (List Json)
points_of none = some []
points_of (some (Json.obj point)) = some (Json.obj point ∷ [])
points_of (some (Json.arr points)) = some (items points)
points_of (some _) = none

module _ (E : Environment) (S : StatusPublisher) (py : Library) where
  -- The availability that a response is about, when its request was for one.
  unfoldable pub settle : String → Bool → State E S py → State E S py
  unfolding with_link report
  settle path failed t =
      let value = lookup path t.availability_pending in
      let t₁ : State E S py = record t {
        availability_pending = erase path t.availability_pending;
      } in
      let (now, e) = E.monotonic t.policy.viss.environment in
      let t₂ = with_link (record t.policy.viss { environment = e }) t₁ in
      if failed
      then record t₂ {
        availability_next_attempt = insert path (now + 1_000_000) t₂.availability_next_attempt;
      }
      else (elim value [
        | none ↦ t₁
        | some v ↦ report (path <> ":readiness") (if v then "READY" else "NOT_READY") (record t₂ {
          availability_confirmed = insert path v t₂.availability_confirmed;
          availability_heartbeat = insert path (now + 5_000_000) t₂.availability_heartbeat;
        })
      ])

  -- A response with the ID of a request; one that is not in flight changes nothing.
  unfoldable pub take_response : String → Bool → State E S py → State E S py
  unfolding with_link report
  take_response request_id failed t = elim (lookup request_id t.policy.viss.pending) [
    | none ↦ t
    | some (path, deadline) ↦
        let link = t.policy.viss in
        let t₁ = with_link (record link { pending = erase request_id link.pending }) t in
        let settled = settle path failed t₁ in
        let t₂ = if is_availability_path path then settled else t₁ in
        report path (if failed then "VISS_SET_REJECTED" else "VISS_SET_ACCEPTED") t₂
  ]

  -- The branch of `consume` on a Set response.
  unfoldable pub consume_set : Fields → State E S py → State E S py
  consume_set message t = elim (get_or_null "requestId" message) [
    | Json.str request_id ↦ take_response request_id (has_key "error" message) t
    | _ ↦ t
  ]

  unfoldable pub after_status :
      String → String → Result Decision → State E S py → Result (Unit {0}) × State E S py
  unfolding report
  after_status path value (err e) t = (err e, t)
  after_status path value (ok decision) t = (
    ok tt,
    report path decision.reason (record t {
      seen_statuses =
          if decision.accepted then insert path value t.seen_statuses else t.seen_statuses;
    }),
  )

  -- A status with a new text.
  unfoldable pub take_status : String → String → State E S py → Result (Unit {0}) × State E S py
  unfolding after_status
  take_status path value t =
      let (r, policy) = handle_gateway_status (link_writer E py) S py path value t.policy in
      after_status path value r (record t { policy = policy })

  -- The path and the value are text.
  unfoldable pub take_value :
      String → Option String → State E S py → Result (Unit {0}) × State E S py
  take_value path none t = (ok tt, t)
  take_value path (some value) t =
      let taken = take_status path value t in
      if is_seen E S py path value t.seen_statuses then (ok tt, t) else taken

  -- `seen.add(path)`, if no exception came.
  unfoldable pub after_value :
      String → List String → Result (Unit {0}) × State E S py → Result (List String) × State E S py
  after_value path seen (ok u, t) = (ok (path ∷ seen), t)
  after_value path seen (err e, t) = (err e, t)

  -- One point; `seen` has the paths that came before.
  unfoldable pub take_point :
      Json → List String → State E S py → Result (List String) × State E S py
  unfolding after_value
  take_point point seen t = elim (status_point point) [
    | none ↦ (ok seen, t)
    | some (path, value) ↦
        let taken = after_value path seen (take_value path value t) in
        if contains seen path then (ok seen, t) else taken
  ]

  abbrev pub go_on :
      Result (List String) × State E S py
      → (List String → State E S py → Result (Unit {0}) × State E S py)
      → Result (Unit {0}) × State E S py
  go_on (ok seen, t) rest = rest seen t
  go_on (err e, t) rest = (err e, t)

  -- The loop over the points.
  unfoldable pub take_points :
      List Json → List String → State E S py → Result (Unit {0}) × State E S py
  take_points [] seen t = (ok tt, t)
  take_points (point ∷ points) seen t = go_on (take_point point seen t) (take_points points)

  unfoldable pub after_points :
      List Json → Result (Unit {0}) × State E S py → Result Bool × State E S py
  after_points points (ok u, t) = (ok (status_only points), t)
  after_points points (err e, t) = (err e, t)

  -- The branch of `consume` on an event; `none` for data that are no points.
  unfoldable pub consume_points : Option (List Json) → State E S py → Result Bool × State E S py
  unfolding after_points
  consume_points none t = (ok false, t)
  consume_points (some points) t = after_points points (take_points points [] t)

  unfoldable pub consume_message : String → Fields → State E S py → Result Bool × State E S py
  consume_message subscription_id message t =
      if is_str (get_or_null "action" message) "set"
      then (ok true, consume_set message t)
      else if not (is_str (get_or_null "action" message) "subscription")
          || not (is_str (get_or_null "subscriptionId" message) subscription_id)
      then (ok false, t)
      else consume_points (points_of (get "data" message)) t

  -- What `json.loads` gave; a value that is no object has no `get`.
  unfoldable pub consume_value : String → Result Json → State E S py → Result Bool × State E S py
  consume_value subscription_id (ok (Json.obj message)) t =
      consume_message subscription_id message t
  consume_value subscription_id (ok _) t = (err other_error, t)
  consume_value subscription_id (err e) t = (err e, t)

  unfoldable pub consume : String → String → State E S py → Result Bool × State E S py
  unfolding consume_value
  consume raw subscription_id t = consume_value subscription_id (py.loads raw) t
