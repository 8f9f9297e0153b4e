-- ===== src/Advisory/Policy/Bounds.antt =====
-- The tables of `AdvisoryPolicy` (advisory.py) stay within their capacities.
use aos_vehicle_platform.Prelude.{
  ℕ, ◌*◌, ◌≤◌, String, List, [], ◌∷◌, arith, string_eq, pair_eq, nat_eq, if-elim, not, Result, inl,
  inr, Result-cases, Option-cases,
}
use aos_vehicle_platform.Prelude.Lists.{length}
use aos_vehicle_platform.Prelude.Dict.{
  Dict, lookup, trim, insert, insert_last, lookup-insert, length-erase,
}
use aos_vehicle_platform.Python.{Library, Datetime, Fields}
use aos_vehicle_platform.Advisory.Endpoint.{
  Endpoint, endpoints, endpoint_by_status, Caller, Decision,
}
use aos_vehicle_platform.Advisory.Request.{Identity, canonical_json}
use aos_vehicle_platform.Advisory.Policy.{
  VissWriter, StatusPublisher, Policy, State, Replay, Request, replay_of, expire_replay, capacity,
  is_rollback, is_rate_limited, remember, forward, admit, decide, handle_request, read_request,
  read_status, publish, handle_gateway_status, new_policy, is_terminal, is_pending, Message,
  on_request, on_status, serve,
}

length-trim {ℓ} : {A : Type ℓ} (capacity : ℕ) (xs : List A) → length (trim capacity xs) ≤ capacity
unfolding trim
length-trim capacity [] = omega arith
length-trim capacity (x ∷ xs) = ground (arith, length-trim capacity xs)

length-expire_replay : (now : ℕ) (r : Replay) → length (expire_replay now r) ≤ length r
unfolding expire_replay
length-expire_replay now [] = omega arith
length-expire_replay now ((identity, (canonical, at)) ∷ rest) =
    ground (arith, length-expire_replay now rest)

-- Every endpoint's replay table, and the two shared tables, are within bounds.
pub record IsBounded {V S : Type 0} (p : Policy V S) : Type 0 where
  pub replays : (id : String) → length (replay_of id p.replay) ≤ capacity
  pub sequences : length p.latest_sequence ≤ 2 * capacity
  pub pendings : length p.pending ≤ 2 * capacity

replay_of-insert :
    (id j : String) (r : Replay) (replays : Dict String Replay)
    → length r ≤ capacity
    → length (replay_of j replays) ≤ capacity
    → length (replay_of j (insert id r replays)) ≤ capacity
unfolding replay_of
replay_of-insert id j r replays h k = ground (arith, lookup-insert j id r replays)

module _ (V : VissWriter) (S : StatusPublisher) where
  remember-IsBounded :
      (endpoint : Endpoint) (request : Request) (now : ℕ) (replay : Replay) (p : State V S)
      → IsBounded p
      → IsBounded (remember V S endpoint request now replay p)
  unfolding remember
  remember-IsBounded endpoint request now replay p b =
      let id = endpoint.endpoint_id in
      let i = request.identity in
      let r : Replay = insert_last i (request.canonical, now) replay in
      record {
        replays = λ j.
            replay_of-insert id j (trim capacity r) p.replay (length-trim capacity r) (b.replays j);
        sequences = length-trim (2 * capacity) (insert_last (id, i.1.0) i.1.1 p.latest_sequence);
        pendings = length-trim (2 * capacity) (insert_last (id, i) endpoint p.pending);
      }

  forward-IsBounded :
      (endpoint : Endpoint) (request : Request) (p : State V S)
      → IsBounded p
      → IsBounded (forward V S endpoint request p).1
  unfolding forward
  forward-IsBounded endpoint request p b = record {
    replays = b.replays;
    sequences = b.sequences;
    pendings = b.pendings;
  }

  admit-IsBounded :
      (endpoint : Endpoint) (request : Request) (now : ℕ) (replay : Replay) (p : State V S)
      → IsBounded p
      → IsBounded (admit V S endpoint request now replay p).1
  unfolding admit
  admit-IsBounded endpoint request now replay p b =
      let Bounded : Decision × State V S → Type 0 = λ r. IsBounded r.1 in
      if-elim Bounded (is_rollback _ _) b (
        if-elim Bounded (is_rate_limited _ _ _) b (
          forward-IsBounded endpoint request _
            (remember-IsBounded endpoint request now replay p b)))

  decide-IsBounded :
      (endpoint : Endpoint) (request : Request) (now : ℕ) (p : State V S)
      → IsBounded p
      → IsBounded (decide V S endpoint request now p).1
  unfolding decide
  decide-IsBounded endpoint request now p b =
      let id = endpoint.endpoint_id in
      let replay : Replay = expire_replay now (replay_of id p.replay) in
      let p' : State V S = record p { replay = insert id replay p.replay } in
      let small : length replay ≤ capacity =
        omega (arith, length-expire_replay now (replay_of id p.replay), b.replays id) in
      let b' : IsBounded p' = record {
        replays = λ j. replay_of-insert id j replay p.replay small (b.replays j);
        sequences = b.sequences;
        pendings = b.pendings;
      } in
      elim (Option-cases (lookup request.identity replay)) [
        | inl fresh ↦ rw (fresh, decide) (admit-IsBounded endpoint request now replay p' b')
        | inr (previous, old) ↦ rw (old, decide) b'
      ]

  module _ (py : Library) where
    pub handle_request-IsBounded :
        (caller : Caller) (path raw : String) (now_utc : Datetime) (now : ℕ) (p : State V S)
        → IsBounded p
        → IsBounded (handle_request V S py caller path raw now_utc now p).1
    unfolding handle_request
    handle_request-IsBounded caller path raw now_utc now p b =
        elim (Option-cases (lookup path endpoints)) [
          | inl unknown ↦ rw (unknown, handle_request) b
          | inr (endpoint, known) ↦ elim (Result-cases (read_request V S py raw endpoint now_utc)) [
            | inl (request, good) ↦
                rw (known, good, handle_request)
                  (if-elim (λ (r : Result Decision × State V S). IsBounded r.1) (not _) b
                    (decide-IsBounded endpoint request now p b))
            | inr (e, bad) ↦
                rw (known, bad, handle_request)
                  (if-elim (λ (r : Result Decision × State V S). IsBounded r.1) (not _) b b)
          ]
        ]

    publish-IsBounded :
        (endpoint : Endpoint) (fs : Fields) (identity : Identity) (p : State V S)
        → IsBounded p
        → IsBounded (publish V S py endpoint fs identity p).1
    unfolding publish
    publish-IsBounded endpoint fs identity p b =
        elim (Result-cases
          (S.publish_status endpoint.status_path (canonical_json py fs) p.kuksa).0) [
            | inr (e, failed) ↦
                rw (failed, publish)
                  (record { replays = b.replays; sequences = b.sequences; pendings = b.pendings })
            | inl (u, done) ↦
                rw (done, publish)
                  (record {
                    replays = b.replays;
                    sequences = b.sequences;
                    pendings =
                        if-elim (λ (d : Dict (String × Identity) Endpoint). length d ≤ 2 * capacity)
                          (is_terminal V S py fs)
                          (omega (
                            arith,
                            b.pendings,
                            length-erase (endpoint.endpoint_id, identity) p.pending,
                          ))
                          b.pendings;
                  })
          ]

    pub handle_gateway_status-IsBounded :
        (path raw : String) (p : State V S)
        → IsBounded p
        → IsBounded (handle_gateway_status V S py path raw p).1
    unfolding handle_gateway_status
    handle_gateway_status-IsBounded path raw p b =
        elim (Option-cases (lookup path endpoint_by_status)) [
          | inl unknown ↦ rw (unknown, handle_gateway_status) b
          | inr (endpoint, known) ↦ elim (Result-cases (read_status V S py raw endpoint)) [
            | inl ((fs, identity), good) ↦
                rw (known, good, handle_gateway_status)
                  (if-elim (λ (r : Result Decision × State V S). IsBounded r.1)
                    (is_pending V S py _ _) (publish-IsBounded endpoint fs identity p b) b)
            | inr (e, bad) ↦ rw (known, bad, handle_gateway_status) b
          ]
        ]

    serve-IsBounded :
        (ms : List Message) (p : State V S) → IsBounded p → IsBounded (serve V S py ms p)
    unfolding serve
    serve-IsBounded [] p b = b
    serve-IsBounded (on_request caller path raw now_utc now ∷ ms) p b =
        serve-IsBounded ms _ (handle_request-IsBounded caller path raw now_utc now p b)
    serve-IsBounded (on_status path raw ∷ ms) p b =
        serve-IsBounded ms _ (handle_gateway_status-IsBounded path raw p b)

pub new_policy-IsBounded : {V S : Type 0} (viss : V) (kuksa : S) → IsBounded (new_policy viss kuksa)
unfolding replay_of lookup
new_policy-IsBounded viss kuksa = record {
  replays = λ id. ground arith;
  sequences = omega arith;
  pendings = omega arith;
}

-- After any requests and statuses on a new policy, whatever the writer and the publisher do: each
-- endpoint's replay table has at most 512 entries, and the tables of sequences and of pending
-- statuses have at most 1024 each.
pub tables-IsBounded :
    (V : VissWriter) (S : StatusPublisher) (py : Library) (ms : List Message) (viss : V.State)
    (kuksa : S.State)
    → IsBounded (serve V S py ms (new_policy viss kuksa))
tables-IsBounded V S py ms viss kuksa =
    serve-IsBounded V S py ms (new_policy viss kuksa) (new_policy-IsBounded viss kuksa)
