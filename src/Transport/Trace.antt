-- ===== src/Transport/Trace.antt =====
-- What holds of `AdvisoryTransport` (advisory_transport.py) after any calls.
use aos_vehicle_platform.Prelude.{
  ◌≤◌, String, ◌≡◌, sym, subst, Bool, true, false, Option, none, some, List, [], ◌∷◌, string_eq,
  if-elim, contains, Result, ok, err, inl, inr, Option-cases,
}
use aos_vehicle_platform.Prelude.Lists.{length}
use aos_vehicle_platform.Prelude.Dict.{lookup, erase}
use aos_vehicle_platform.Python.{Json, Fields, Library, Datetime, get, get_or_null, has_key, is_str}
use aos_vehicle_platform.Advisory.Endpoint.{Decision}
use aos_vehicle_platform.Advisory.Policy.{StatusPublisher}
use aos_vehicle_platform.Advisory.Policy.Bounds.{
  IsBounded, handle_gateway_status-IsBounded, new_policy-IsBounded,
}
use aos_vehicle_platform.Advisory.Policy.Writer.{handle_gateway_status-writer}
use aos_vehicle_platform.Transport.Producer.{Targets, is_availability_path}
use aos_vehicle_platform.Transport.Session.{Environment, link_writer}
use aos_vehicle_platform.Transport.InFlight.{
  IsSingle, IsKnown, IsSound, erase-IsSingle, erase-IsKnown, length-of_sound,
}
use aos_vehicle_platform.Transport.{
  State, new_transport, with_link, attach, detach, report, is_seen, tick,
}
use aos_vehicle_platform.Transport.Consume.{
  settle, take_response, consume_set, after_status, take_status, take_value, take_points,
  consume_points, consume_message, consume, consume_value, points_of, status_point, after_value,
  take_point, go_on, after_points,
}
use aos_vehicle_platform.Transport.Health.{IsHealthy, Healthy, with_link-IsHealthy, tick-IsHealthy}

module _ (E : Environment) (S : StatusPublisher) (py : Library) where
  settle-IsHealthy :
      (path : String) (failed : Bool) (t : State E S py)
      → IsHealthy t
      → IsHealthy (settle E S py path failed t)
  unfolding settle with_link report
  settle-IsHealthy path true t h =
      let h' =
        with_link-IsHealthy
          (record t.policy.viss { environment = (E.monotonic t.policy.viss.environment).1 }) t
          h.sound h in
      record { sound = h'.sound; tables = h'.tables }
  settle-IsHealthy path false t h =
      let h' =
        with_link-IsHealthy
          (record t.policy.viss { environment = (E.monotonic t.policy.viss.environment).1 }) t
          h.sound h in
      elim (Option-cases (lookup path t.availability_pending)) [
        | inl gone ↦ rw (gone, settle) (record { sound = h.sound; tables = h.tables })
        | inr (v, e) ↦ rw (e, settle) (record { sound = h'.sound; tables = h'.tables })
      ]

  take_response-IsHealthy :
      (id : String) (failed : Bool) (t : State E S py)
      → IsHealthy t
      → IsHealthy (take_response E S py id failed t)
  unfolding take_response report
  take_response-IsHealthy id failed t h = elim (Option-cases (lookup id t.policy.viss.pending)) [
    | inl unknown ↦ rw (unknown, take_response) h
    | inr ((path, deadline), known) ↦
        let link = t.policy.viss in
        let t₁ = with_link (record link { pending = erase id link.pending }) t in
        let h₁ =
          with_link-IsHealthy (record link { pending = erase id link.pending }) t
            (erase-IsSingle id link.pending h.sound.0, erase-IsKnown id link.pending h.sound.1) h in
        let h₂ =
          if-elim (λ (x : State E S py). IsHealthy x) (is_availability_path path)
            (settle-IsHealthy path failed t₁ h₁) h₁ in
        rw (known, take_response) (record { sound = h₂.sound; tables = h₂.tables })
  ]

  consume_set-IsHealthy :
      (message : Fields) (t : State E S py) → IsHealthy t → IsHealthy (consume_set E S py message t)
  unfolding consume_set
  consume_set-IsHealthy message t h = go (get_or_null "requestId" message)
    where
      go :
          (j : Json)
          → IsHealthy
              (elim j [ Json.str id ↦ take_response E S py id (has_key "error" message) t | _ ↦ t ])
      go (Json.str id) = take_response-IsHealthy id (has_key "error" message) t h
      go _ = h

  after_status-IsHealthy :
      (path value : String) (r : Result Decision) (t : State E S py)
      → IsHealthy t
      → Healthy E S py (after_status E S py path value r t)
  unfolding after_status report
  after_status-IsHealthy path value (ok d) t h = record { sound = h.sound; tables = h.tables }
  after_status-IsHealthy path value (err e) t h = h

  take_status-IsHealthy :
      (path value : String) (t : State E S py)
      → IsHealthy t
      → Healthy E S py (take_status E S py path value t)
  unfolding take_status
  take_status-IsHealthy path value t h = after_status-IsHealthy path value _ _ (record {
    sound =
        subst IsSound
          (sym (handle_gateway_status-writer (link_writer E py) S py path value t.policy)) h.sound;
    tables = handle_gateway_status-IsBounded (link_writer E py) S py path value t.policy h.tables;
  })

  take_value-IsHealthy :
      (path : String) (value : Option String) (t : State E S py)
      → IsHealthy t
      → Healthy E S py (take_value E S py path value t)
  unfolding take_value
  take_value-IsHealthy path none t h = h
  take_value-IsHealthy path (some value) t h =
      if-elim (Healthy E S py) (is_seen E S py path value t.seen_statuses) h
        (take_status-IsHealthy path value t h)

  after_value-IsHealthy :
      (path : String) (seen : List String) (r : Result (Unit {0}) × State E S py)
      → Healthy E S py r
      → Healthy E S py (after_value E S py path seen r)
  unfolding after_value
  after_value-IsHealthy path seen (ok u, t) h = h
  after_value-IsHealthy path seen (err e, t) h = h

  take_point-IsHealthy :
      (point : Json) (seen : List String) (t : State E S py)
      → IsHealthy t
      → Healthy E S py (take_point E S py point seen t)
  unfolding take_point
  take_point-IsHealthy point seen t h = elim (Option-cases (status_point point)) [
    | inl other ↦ rw (other, take_point) h
    | inr ((path, value), named) ↦
        rw (named, take_point)
          (if-elim {A = Result (List String) × State E S py} (Healthy E S py) (contains seen path) h
            (after_value-IsHealthy path seen (take_value E S py path value t)
              (take_value-IsHealthy path value t h)))
  ]

  go_on-IsHealthy :
      (r : Result (List String) × State E S py)
      (rest : List String → State E S py → Result (Unit {0}) × State E S py)
      → Healthy E S py r
      → ((seen : List String) (t : State E S py) → IsHealthy t → Healthy E S py (rest seen t))
      → Healthy E S py (go_on E S py r rest)
  go_on-IsHealthy (ok seen, t) rest h k = k seen t h
  go_on-IsHealthy (err e, t) rest h k = h

  take_points-IsHealthy :
      (points : List Json) (seen : List String) (t : State E S py)
      → IsHealthy t
      → Healthy E S py (take_points E S py points seen t)
  unfolding take_points
  take_points-IsHealthy [] seen t h = h
  take_points-IsHealthy (point ∷ points) seen t h =
      go_on-IsHealthy (take_point E S py point seen t) (take_points E S py points)
        (take_point-IsHealthy point seen t h) (take_points-IsHealthy points)

  after_points-IsHealthy :
      (points : List Json) (r : Result (Unit {0}) × State E S py)
      → Healthy E S py r
      → Healthy E S py (after_points E S py points r)
  unfolding after_points
  after_points-IsHealthy points (ok u, t) h = h
  after_points-IsHealthy points (err e, t) h = h

  consume_points-IsHealthy :
      (points : Option (List Json)) (t : State E S py)
      → IsHealthy t
      → Healthy E S py (consume_points E S py points t)
  unfolding consume_points
  consume_points-IsHealthy none t h = h
  consume_points-IsHealthy (some ps) t h =
      after_points-IsHealthy ps (take_points E S py ps [] t) (take_points-IsHealthy ps [] t h)

  consume_message-IsHealthy :
      (id : String) (message : Fields) (t : State E S py)
      → IsHealthy t
      → Healthy E S py (consume_message E S py id message t)
  unfolding consume_message
  consume_message-IsHealthy id message t h =
      let P : Result Bool × State E S py → Type 0 = Healthy E S py in
      if-elim P (is_str (get_or_null "action" message) "set") (consume_set-IsHealthy message t h)
        (if-elim P _ h (consume_points-IsHealthy (points_of (get "data" message)) t h))

  loaded-IsHealthy :
      (id : String) (value : Result Json) (t : State E S py)
      → IsHealthy t
      → Healthy E S py (consume_value E S py id value t)
  unfolding consume_value
  loaded-IsHealthy id (ok (Json.obj message)) t h = consume_message-IsHealthy id message t h
  loaded-IsHealthy id (ok _) t h = h
  loaded-IsHealthy id (err e) t h = h

-- What happens to a transport: its own calls, and what changes outside it between them.
pub data Call (E : Type 0) : Type 0 where
  on_attach : Call E
  on_detach : Call E
  on_tick : Datetime → Targets → Call E
  on_consume : String → String → Call E
  on_outside : E → Call E

module _ (E : Environment) (S : StatusPublisher) (py : Library) where
  unfoldable pub apply : Call E.State → State E S py → State E S py
  unfolding with_link
  apply on_attach t = attach t
  apply on_detach t = detach t
  apply (on_tick now_utc targets) t = (tick E S py now_utc targets t).1
  apply (on_consume raw id) t = (consume E S py raw id t).1
  apply (on_outside e) t = with_link (record t.policy.viss { environment = e }) t

  -- An exception ends its call; the next one finds the state it left.
  unfoldable pub run : List (Call E.State) → State E S py → State E S py
  unfolding apply
  run [] t = t
  run (c ∷ cs) t = run cs (apply c t)

  apply-IsHealthy : (c : Call E.State) (t : State E S py) → IsHealthy t → IsHealthy (apply c t)
  unfolding apply attach detach consume
  apply-IsHealthy on_attach t h =
      let h' =
        with_link-IsHealthy (record t.policy.viss { attached = true; pending = [] }) t (tt, tt) h in
      record { sound = h'.sound; tables = h'.tables }
  apply-IsHealthy on_detach t h =
      let h' =
        with_link-IsHealthy (record t.policy.viss { attached = false; pending = [] }) t (tt, tt)
          h in
      record { sound = h'.sound; tables = h'.tables }
  apply-IsHealthy (on_tick now_utc targets) t h = tick-IsHealthy E S py now_utc targets t h
  apply-IsHealthy (on_consume raw id) t h = loaded-IsHealthy E S py id (py.loads raw) t h
  apply-IsHealthy (on_outside e) t h =
      with_link-IsHealthy (record t.policy.viss { environment = e }) t h.sound h

  run-IsHealthy : (cs : List (Call E.State)) (t : State E S py) → IsHealthy t → IsHealthy (run cs t)
  unfolding run
  run-IsHealthy [] t h = h
  run-IsHealthy (c ∷ cs) t h = run-IsHealthy cs (apply c t) (apply-IsHealthy c t h)

  -- The transport is the writer of its own policy, and both stay within bounds: after any calls on a
  -- new transport, whatever the session, the clock and the broker do, at most one request is in
  -- flight on each path, at most four in all, on the request and availability paths only, and the
  -- tables of the policy are within their capacities.
  pub run-IsBounded :
      (cs : List (Call E.State)) (environment : E.State) (kuksa : S.State) (t : State E S py)
      → run cs (new_transport environment kuksa) ≡ t
      → IsSingle t.policy.viss.pending
        × IsKnown t.policy.viss.pending
        × (length t.policy.viss.pending ≤ 4)
        × IsBounded t.policy
  run-IsBounded cs environment kuksa t e =
      let start : IsHealthy (new_transport environment kuksa) = record {
        sound = (tt, tt);
        tables = new_policy-IsBounded _ kuksa;
      } in
      let h = subst IsHealthy e (run-IsHealthy cs (new_transport environment kuksa) start) in
      (h.sound.0, h.sound.1, length-of_sound t.policy.viss.pending h.sound.0 h.sound.1, h.tables)
