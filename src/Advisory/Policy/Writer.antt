-- ===== src/Advisory/Policy/Writer.antt =====
-- What `AdvisoryPolicy` (advisory.py) does to its writer: nothing but `set_value`.
use aos_vehicle_platform.Prelude.{
  ℕ, String, ◌≡◌, arith, string_eq, pair_eq, nat_eq, if-elim, inl, inr, Result-cases, Option-cases,
  Bool-cases,
}
use aos_vehicle_platform.Prelude.Dict.{lookup, insert}
use aos_vehicle_platform.Python.{Library, Datetime}
use aos_vehicle_platform.Advisory.Endpoint.{Endpoint, endpoints, Caller, Decision}
use aos_vehicle_platform.Advisory.Policy.{
  VissWriter, StatusPublisher, State, Replay, Request, replay_of, expire_replay, is_rollback,
  is_rate_limited, remember, forward, admit, decide, handle_request, read_request, is_authorised,
  publish, handle_gateway_status,
}

module _ (V : VissWriter) (S : StatusPublisher) (P : V.State → Type 0)
    (keeps : (path value : String) (v : V.State) → P v → P (V.set_value path value v).1) where
  admit-writer :
      (endpoint : Endpoint) (request : Request) (now : ℕ) (replay : Replay) (p : State V S)
      → P p.viss
      → P (admit V S endpoint request now replay p).1.viss
  unfolding admit forward remember
  admit-writer endpoint request now replay p h =
      let Kept : Decision × State V S → Type 0 = λ r. P r.1.viss in
      if-elim Kept (is_rollback _ _) h (
        if-elim Kept (is_rate_limited _ _ _) h
          (keeps endpoint.request_path request.canonical p.viss h))

  decide-writer :
      (endpoint : Endpoint) (request : Request) (now : ℕ) (p : State V S)
      → P p.viss
      → P (decide V S endpoint request now p).1.viss
  unfolding decide
  decide-writer endpoint request now p h =
      let replay : Replay = expire_replay now (replay_of endpoint.endpoint_id p.replay) in
      let p' : State V S = record p { replay = insert endpoint.endpoint_id replay p.replay } in
      elim (Option-cases (lookup request.identity replay)) [
        | inl fresh ↦ rw (fresh, decide) (admit-writer endpoint request now replay p' h)
        | inr (previous, old) ↦ rw (old, decide) h
      ]

  module _ (py : Library) where
    -- What the writer keeps, a request keeps.
    pub handle_request-writer :
        (caller : Caller) (path raw : String) (now_utc : Datetime) (now : ℕ) (p : State V S)
        → P p.viss
        → P (handle_request V S py caller path raw now_utc now p).1.viss
    unfolding handle_request
    handle_request-writer caller path raw now_utc now p h =
        elim (Option-cases (lookup path endpoints)) [
          | inl unknown ↦ rw (unknown, handle_request) h
          | inr (endpoint, known) ↦ elim (Bool-cases (is_authorised V S caller endpoint)) [
            | inr other ↦ rw (known, other, handle_request) h
            | inl allowed ↦ elim (Result-cases (read_request V S py raw endpoint now_utc)) [
              | inr (x, bad) ↦ rw (known, allowed, bad, handle_request) h
              | inl (request, good) ↦
                  rw (known, allowed, good, handle_request) (decide-writer endpoint request now p h)
            ]
          ]
        ]

pub handle_gateway_status-writer :
    (V : VissWriter) (S : StatusPublisher) (py : Library) (path raw : String) (p : State V S)
    → (handle_gateway_status V S py path raw p).1.viss ≡ p.viss
unfolding handle_gateway_status publish
handle_gateway_status-writer V S py path raw p = ground arith
