-- ===== src/Transport/Health.antt =====
-- That `AdvisoryTransport.tick` (advisory_transport.py) keeps the requests in flight and the tables of
-- the policy within their bounds.
use aos_vehicle_platform.Prelude.{
  ℕ, String, ◌≡◌, sym, subst, Bool, ◌||◌, List, [], ◌∷◌, string_eq, if-elim, Result, ok, err, inl,
  inr, Option-cases, Result-cases,
}
use aos_vehicle_platform.Prelude.Dict.{Dict, lookup, erase}
use aos_vehicle_platform.Python.{Library, Datetime}
use aos_vehicle_platform.Advisory.Endpoint.{Endpoint, endpoints, Decision}
use aos_vehicle_platform.Advisory.Policy.{StatusPublisher, Policy}
use aos_vehicle_platform.Advisory.Policy.Bounds.{IsBounded, handle_request-IsBounded}
use aos_vehicle_platform.Advisory.Policy.Writer.{handle_request-writer}
use aos_vehicle_platform.Transport.Producer.{Targets, observed_paths, is_availability_path}
use aos_vehicle_platform.Transport.Session.{Environment, Link, set_value, link_writer, in_flight}
use aos_vehicle_platform.Transport.InFlight.{
  IsSound, erase-IsSingle, erase-IsKnown, set_value-IsSound,
}
use aos_vehicle_platform.Transport.{
  Transport, State, with_link, report, expire_one, expire_pending, after_announce, announce,
  and_then, current_of, is_held, offer, offers, after_ask, ask_policy, is_seen, take_target,
  take_targets, after_offers, tick_attached, tick_session, tick, availability_message,
}

-- The link's requests and the policy's tables.
pub record IsHealthy {E S : Type 0} (t : Transport E S) : Type 0 where
  pub sound : IsSound t.policy.viss
  pub tables : IsBounded t.policy

module _ {E S : Type 0} where
  -- Only the policy counts.
  abbrev of_policy : (t t' : Transport E S) → t'.policy ≡ t.policy → IsHealthy t → IsHealthy t'
  of_policy t t' e h = record {
    sound = subst (λ (p : Policy (Link E) S). IsSound p.viss) (sym e) h.sound;
    tables = subst IsBounded (sym e) h.tables;
  }

  pub with_link-IsHealthy :
      (l : Link E) (t : Transport E S) → IsSound l → IsHealthy t → IsHealthy (with_link l t)
  unfolding with_link
  with_link-IsHealthy l t s h = record {
    sound = s;
    tables = record {
      replays = h.tables.replays;
      sequences = h.tables.sequences;
      pendings = h.tables.pendings;
    };
  }

  expire_one-IsHealthy :
      (now : ℕ) (id path : String) (t : Transport E S)
      → IsHealthy t
      → IsHealthy (expire_one now id path t)
  unfolding expire_one report
  expire_one-IsHealthy now id path t h =
      let link = t.policy.viss in
      let h' =
        with_link-IsHealthy (record link { pending = erase id link.pending }) t
          (erase-IsSingle id link.pending h.sound.0, erase-IsKnown id link.pending h.sound.1) h in
      if-elim (λ (x : Transport E S). IsHealthy (report path "VISS_RESPONSE_TIMEOUT" x))
        (is_availability_path path) (record { sound = h'.sound; tables = h'.tables })
        (record { sound = h'.sound; tables = h'.tables })

  expire_pending-IsHealthy :
      (now : ℕ) (d : Dict String (String × ℕ)) (t : Transport E S)
      → IsHealthy t
      → IsHealthy (expire_pending now d t)
  unfolding expire_pending
  expire_pending-IsHealthy now [] t h = h
  expire_pending-IsHealthy now ((id, (path, deadline)) ∷ rest) t h =
      expire_pending-IsHealthy now rest _
        (if-elim IsHealthy _ (expire_one-IsHealthy now id path t h) h)

module _ (E : Environment) (S : StatusPublisher) (py : Library) where
  -- What a step of a loop leaves.
  abbrev pub Healthy : {A : Type 0} → Result A × State E S py → Type 0
  Healthy r = IsHealthy r.1

  and_then-IsHealthy :
      (r : Result (Unit {0}) × State E S py)
      (rest : State E S py → Result (Unit {0}) × State E S py)
      → Healthy r
      → ((t : State E S py) → IsHealthy t → Healthy (rest t))
      → Healthy (and_then E S py r rest)
  and_then-IsHealthy (ok u, t) rest h k = k t h
  and_then-IsHealthy (err e, t) rest h k = h

  after_announce-IsHealthy :
      (now : ℕ) (path : String) (current : Bool) (r : Result (Unit {0})) (t : State E S py)
      → IsHealthy t
      → Healthy (after_announce E S py now path current r t)
  unfolding after_announce
  after_announce-IsHealthy now path current (ok u) t h = record {
    sound = h.sound;
    tables = h.tables;
  }
  after_announce-IsHealthy now path current (err e) t h = h

  announce-IsHealthy :
      (now_utc : Datetime) (now : ℕ) (path : String) (current : Bool) (t : State E S py)
      → IsHealthy t
      → Healthy (announce E S py now_utc now path current t)
  unfolding announce
  announce-IsHealthy now_utc now path current t h =
      let value = py.dumps (availability_message py current now_utc) in
      let (r, link) = set_value E py path value t.policy.viss in
      after_announce-IsHealthy now path current r (with_link link t)
        (with_link-IsHealthy link t (set_value-IsSound E py path value t.policy.viss h.sound) h)

  offer-IsHealthy :
      (now_utc : Datetime) (now : ℕ) (targets : Targets) (source path : String) (t : State E S py)
      → IsHealthy t
      → Healthy (offer E S py now_utc now targets source path t)
  unfolding offer
  offer-IsHealthy now_utc now targets source path t h =
      elim (Result-cases (current_of E S py now_utc targets source)) [
        | inr (x, bad) ↦ rw (bad, offer) h
        | inl (current, good) ↦
            rw (good, offer)
              (if-elim Healthy (is_held now path current t) h
                (announce-IsHealthy now_utc now path current t h))
      ]

  offers-IsHealthy :
      (now_utc : Datetime) (now : ℕ) (targets : Targets) (paths : List (String × String))
      (t : State E S py)
      → IsHealthy t
      → Healthy (offers E S py now_utc now targets paths t)
  unfolding offers
  offers-IsHealthy now_utc now targets [] t h = h
  offers-IsHealthy now_utc now targets ((source, path) ∷ rest) t h =
      and_then-IsHealthy _ _ (offer-IsHealthy now_utc now targets source path t h)
        (offers-IsHealthy now_utc now targets rest)

  after_ask-IsHealthy :
      (path : String) (r : Result Decision) (t : State E S py)
      → IsHealthy t
      → Healthy (after_ask E S py path r t)
  unfolding after_ask report
  after_ask-IsHealthy path (ok d) t h = record { sound = h.sound; tables = h.tables }
  after_ask-IsHealthy path (err e) t h = h

  ask_policy-IsHealthy :
      (now_utc : Datetime) (now : ℕ) (endpoint : Endpoint) (path raw : String) (t : State E S py)
      → IsHealthy t
      → Healthy (ask_policy E S py now_utc now endpoint path raw t)
  unfolding ask_policy
  ask_policy-IsHealthy now_utc now endpoint path raw t h = after_ask-IsHealthy path _ _ (record {
    sound =
        handle_request-writer (link_writer E py) S IsSound (set_value-IsSound E py) py _ path raw
          now_utc now t.policy h.sound;
    tables =
        handle_request-IsBounded (link_writer E py) S py _ path raw now_utc now t.policy h.tables;
  })

  take_target-IsHealthy :
      (now_utc : Datetime) (now : ℕ) (path raw : String) (t : State E S py)
      → IsHealthy t
      → Healthy (take_target E S py now_utc now path raw t)
  unfolding take_target
  take_target-IsHealthy now_utc now path raw t h = elim (Option-cases (lookup path endpoints)) [
    | inl unknown ↦ rw (unknown, take_target) h
    | inr (endpoint, known) ↦
        rw (known, take_target)
          (if-elim Healthy
            (is_seen E S py path raw t.seen_targets || in_flight path t.policy.viss.pending) h
            (ask_policy-IsHealthy now_utc now endpoint path raw t h))
  ]

  take_targets-IsHealthy :
      (now_utc : Datetime) (now : ℕ) (values : Dict String String) (t : State E S py)
      → IsHealthy t
      → Healthy (take_targets E S py now_utc now values t)
  unfolding take_targets
  take_targets-IsHealthy now_utc now [] t h = h
  take_targets-IsHealthy now_utc now ((path, raw) ∷ rest) t h =
      and_then-IsHealthy _ _ (take_target-IsHealthy now_utc now path raw t h)
        (take_targets-IsHealthy now_utc now rest)

  after_offers-IsHealthy :
      (now_utc : Datetime) (now : ℕ) (targets : Targets) (t : State E S py)
      → IsHealthy t
      → Healthy (after_offers E S py now_utc now targets t)
  unfolding after_offers report
  after_offers-IsHealthy now_utc now targets t h =
      let h' : IsHealthy (report "transport" "KUKSA_TARGETS_READY" t) = record {
        sound = h.sound;
        tables = h.tables;
      } in
      if-elim {A = Result (Unit {0}) × State E S py} Healthy targets.ready
        (take_targets-IsHealthy now_utc now targets.values
          (report "transport" "KUKSA_TARGETS_READY" t) h')
        (record { sound = h.sound; tables = h.tables })

  tick_attached-IsHealthy :
      (now_utc : Datetime) (now : ℕ) (targets : Targets) (t : State E S py)
      → IsHealthy t
      → Healthy (tick_attached E S py now_utc now targets t)
  unfolding tick_attached
  tick_attached-IsHealthy now_utc now targets t h =
      and_then-IsHealthy (offers E S py now_utc now targets observed_paths t)
        (after_offers E S py now_utc now targets)
        (offers-IsHealthy now_utc now targets observed_paths t h)
        (after_offers-IsHealthy now_utc now targets)

  tick_session-IsHealthy :
      (now_utc : Datetime) (now : ℕ) (targets : Targets) (t : State E S py)
      → IsHealthy t
      → Healthy (tick_session E S py now_utc now targets t)
  unfolding tick_session
  tick_session-IsHealthy now_utc now targets t h =
      if-elim {A = Result (Unit {0}) × State E S py} Healthy t.policy.viss.attached
        (tick_attached-IsHealthy now_utc now targets t h) h

  pub tick-IsHealthy :
      (now_utc : Datetime) (targets : Targets) (t : State E S py)
      → IsHealthy t
      → Healthy (tick E S py now_utc targets t)
  unfolding tick
  tick-IsHealthy now_utc targets t h =
      let (now, e) = E.monotonic t.policy.viss.environment in
      let t₁ = with_link (record t.policy.viss { environment = e }) t in
      let h₂ =
        expire_pending-IsHealthy now t₁.policy.viss.pending t₁
          (with_link-IsHealthy _ t h.sound h) in
      tick_session-IsHealthy now_utc now targets (expire_pending now t₁.policy.viss.pending t₁) h₂
