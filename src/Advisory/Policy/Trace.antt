-- ===== src/Advisory/Policy/Trace.antt =====
-- Over any traffic, the forwards of one endpoint by `AdvisoryPolicy` (advisory.py) keep their distance.
use aos_vehicle_platform.Prelude.{
  ℕ, ◌+◌, ◌≤◌, String, ◌≡◌, sym, ◌∙◌, true, false, ◌⊎◌, inl, inr, some, List, [], ◌∷◌, arith,
  string_eq, ok, Result-cases, Option-cases, Bool-cases, subst,
}
use aos_vehicle_platform.Prelude.Dict.{Dict, lookup, insert, lookup-insert_eq, lookup-insert_ne}
use aos_vehicle_platform.Python.{Library, Datetime}
use aos_vehicle_platform.Advisory.Endpoint.{
  Endpoint, endpoints, Caller, Decision, min_state_change_interval,
}
use aos_vehicle_platform.Advisory.Request.{Identity}
use aos_vehicle_platform.Advisory.Policy.{
  VissWriter, StatusPublisher, State, Request, RequestedState, is_rate_limited, remember, forward,
  admit, decide, handle_request, read_request, is_authorised, publish, handle_gateway_status,
  Message, on_request, on_status, serve,
}
use aos_vehicle_platform.Advisory.Policy.Forward.{
  IsSpaced, IsSpaced-of_not_limited, handle_request-forwarded,
}

-- The time of the last forward, or attempt, has not gone back; if it moved, it moved by a second.
abbrev Later : ℕ → Dict String (ℕ × RequestedState) → String → Type 0
Later t forwards id =
    (u : ℕ) × (st : RequestedState) × (lookup id forwards ≡ some (u, st)) × (t ≤ u)

module _ (V : VissWriter) (S : StatusPublisher) where
  admit-last_forward :
      (endpoint : Endpoint) (request : Request) (now : ℕ) (replay : Dict Identity (String × ℕ))
      (p : State V S)
      → ((admit V S endpoint request now replay p).1.last_forward ≡ p.last_forward)
        ⊎ (((admit V S endpoint request now replay p).1.last_forward
              ≡ insert endpoint.endpoint_id (now, request.requested_state) p.last_forward)
            × (is_rate_limited now request.requested_state
                  (lookup endpoint.endpoint_id p.last_forward)
                ≡ false))
  unfolding admit forward remember
  admit-last_forward endpoint request now replay p = ground arith

  decide-last_forward :
      (endpoint : Endpoint) (request : Request) (now : ℕ) (p : State V S)
      → ((decide V S endpoint request now p).1.last_forward ≡ p.last_forward)
        ⊎ (((decide V S endpoint request now p).1.last_forward
              ≡ insert endpoint.endpoint_id (now, request.requested_state) p.last_forward)
            × (is_rate_limited now request.requested_state
                  (lookup endpoint.endpoint_id p.last_forward)
                ≡ false))
  unfolding decide admit forward remember
  decide-last_forward endpoint request now p = ground arith

  Later-insert :
      (t now : ℕ) (id j : String) (requested : RequestedState)
      (forwards : Dict String (ℕ × RequestedState))
      → is_rate_limited now requested (lookup j forwards) ≡ false
      → Later t forwards id
      → Later t (insert j (now, requested) forwards) id
  Later-insert t now id j requested forwards h (u, st, e, le) = elim (string_eq.dec id j) [
    | yes same ↦
        let spaced : IsSpaced now requested (some (u, st)) =
          IsSpaced-of_not_limited now requested (some (u, st)) (
            subst (λ o. is_rate_limited now requested o ≡ false) e
              (subst (λ k. is_rate_limited now requested (lookup k forwards) ≡ false) (sym same)
                h)) in
        (
          now,
          requested,
          lookup-insert_eq id j (now, requested) forwards same,
          omega (arith, spaced.0),
        )
    | no other ↦ (u, st, lookup-insert_ne id j (now, requested) forwards other ∙ e, le)
  ]

  decide-Later :
      (endpoint : Endpoint) (request : Request) (now : ℕ) (p : State V S) (t : ℕ) (id : String)
      → Later t p.last_forward id
      → Later t (decide V S endpoint request now p).1.last_forward id
  decide-Later endpoint request now p t id l = elim (decide-last_forward endpoint request now p) [
    | inl same ↦ subst (λ f. Later t f id) (sym same) l
    | inr (moved, h) ↦
        subst (λ f. Later t f id) (sym moved)
          (Later-insert t now id endpoint.endpoint_id request.requested_state p.last_forward h l)
  ]

  module _ (py : Library) where
    handle_request-Later :
        (caller : Caller) (path raw : String) (now_utc : Datetime) (now : ℕ) (p : State V S) (t : ℕ)
        (id : String)
        → Later t p.last_forward id
        → Later t (handle_request V S py caller path raw now_utc now p).1.last_forward id
    unfolding handle_request
    handle_request-Later caller path raw now_utc now p t id l =
        elim (Option-cases (lookup path endpoints)) [
          | inl unknown ↦ rw (unknown, handle_request) l
          | inr (endpoint, known) ↦ elim (Bool-cases (is_authorised V S caller endpoint)) [
            | inr other ↦ rw (known, other, handle_request) l
            | inl allowed ↦ elim (Result-cases (read_request V S py raw endpoint now_utc)) [
              | inr (x, bad) ↦ rw (known, allowed, bad, handle_request) l
              | inl (request, good) ↦
                  rw (known, allowed, good, handle_request)
                    (decide-Later endpoint request now p t id l)
            ]
          ]
        ]

    handle_gateway_status-last_forward :
        (path raw : String) (p : State V S)
        → (handle_gateway_status V S py path raw p).1.last_forward ≡ p.last_forward
    unfolding handle_gateway_status publish
    handle_gateway_status-last_forward path raw p = ground arith

    serve-Later :
        (ms : List Message) (p : State V S) (t : ℕ) (id : String)
        → Later t p.last_forward id
        → Later t (serve V S py ms p).last_forward id
    unfolding serve
    serve-Later [] p t id l = l
    serve-Later (on_request caller path raw now_utc now ∷ ms) p t id l =
        serve-Later ms _ t id (handle_request-Later caller path raw now_utc now p t id l)
    serve-Later (on_status path raw ∷ ms) p t id l =
        serve-Later ms _ t id
          (subst (λ f. Later t f id) (sym (handle_gateway_status-last_forward path raw p)) l)

    spaced_after :
        (t now : ℕ) (id : String) (requested : RequestedState)
        (forwards : Dict String (ℕ × RequestedState))
        → Later t forwards id
        → IsSpaced now requested (lookup id forwards)
        → t + min_state_change_interval ≤ now
    spaced_after t now id requested forwards (u, st, e, le) s =
        let (far, _) : IsSpaced now requested (some (u, st)) = subst (IsSpaced now requested) e s in
        omega arith

    -- Two forwards of one endpoint are at least a second apart, by the readings of the clock that
    -- came with them, whatever requests and statuses come between them and whatever the clock does
    -- in the meantime.
    pub forwards_spaced :
        (caller caller' : Caller) (path raw raw' : String) (utc utc' : Datetime) (now now' : ℕ)
        (p : State V S) (ms : List Message) (d d' : Decision)
        → (handle_request V S py caller path raw utc now p).0 ≡ ok d
        → d.forwarded ≡ true
        → (handle_request V S py caller' path raw' utc' now'
            (serve V S py ms (handle_request V S py caller path raw utc now p).1)).0
          ≡ ok d'
        → d'.forwarded ≡ true
        → now + min_state_change_interval ≤ now'
    forwards_spaced caller caller' path raw raw' utc utc' now now' p ms d d' h f h' f' =
        let p₁ = (handle_request V S py caller path raw utc now p).1 in
        let p₂ = serve V S py ms p₁ in
        let (e, r, known, _, _, _, _, _, first) =
          handle_request-forwarded V S py caller path raw utc now p d h f in
        let (e', r', known', _, _, _, _, _, second) =
          handle_request-forwarded V S py caller' path raw' utc' now' p₂ d' h' f' in
        let same : e' ≡ e = cc in
        let later : Later now p₂.last_forward e.endpoint_id =
          serve-Later ms p₁ now e.endpoint_id
            (now, r.requested_state, first.forward_kept, omega arith) in
        spaced_after now now' e.endpoint_id r'.requested_state p₂.last_forward later (
          subst
            (λ (x : Endpoint).
              IsSpaced now' r'.requested_state (lookup x.endpoint_id p₂.last_forward))
            same second.spaced)
