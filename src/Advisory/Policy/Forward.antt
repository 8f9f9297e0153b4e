-- ===== src/Advisory/Policy/Forward.antt =====
-- What `AdvisoryPolicy.handle_request` (advisory.py) forwards, and when.
use aos_vehicle_platform.Prelude.{
  ℕ, ◌+◌, ◌≤◌, ◌<◌, String, ◌≡◌, ◌≢◌, refl, sym, ◌∙◌, ap, true, false, inl, inr, Option, none, some,
  arith, string_eq, pair_eq, nat_eq, option_eq, ok, Exception, Result-cases, Option-cases,
  Bool-cases, >>=-eq-ok, ok-injective,
}
use aos_vehicle_platform.Prelude.Dict.{
  Dict, lookup, insert, lookup-insert_eq, lookup-insert_ne, lookup-trim_last,
}
use aos_vehicle_platform.Python.{Library, Datetime, Fields}
use aos_vehicle_platform.Advisory.Endpoint.{
  Endpoint, endpoints, Caller, Decision, min_refresh_interval, min_state_change_interval,
  max_request_bytes,
}
use aos_vehicle_platform.Advisory.Request.{
  canonical_object, canonical_json, validate_request, identity_of,
}
use aos_vehicle_platform.Advisory.Policy.{
  VissWriter, StatusPublisher, State, Replay, Request, RequestedState, replay_of, expire_replay,
  is_rollback, is_rate_limited, remember, forward, replayed, admit, decide, handle_request,
  read_request, is_authorised, refused_by,
}

-- The last forward was long enough ago.
abbrev pub IsSpaced : ℕ → RequestedState → Option (ℕ × RequestedState) → Type 0
IsSpaced now requested none = Unit
IsSpaced now requested (some (at, state)) =
    (at + min_state_change_interval ≤ now) × (requested ≡ state → at + min_refresh_interval ≤ now)

abbrev pub IsAbove : ℕ → Option ℕ → Type 0
IsAbove sequence none = Unit
IsAbove sequence (some latest) = latest < sequence

pub IsSpaced-of_not_limited :
    (now : ℕ) (requested : RequestedState) (last : Option (ℕ × RequestedState))
    → is_rate_limited now requested last ≡ false
    → IsSpaced now requested last
unfolding is_rate_limited
IsSpaced-of_not_limited now requested none h = tt
IsSpaced-of_not_limited now requested (some (at, state)) h = ground arith

IsAbove-of_not_rollback :
    (sequence : ℕ) (latest : Option ℕ)
    → is_rollback sequence latest ≡ false
    → IsAbove sequence latest
unfolding is_rollback
IsAbove-of_not_rollback sequence none h = tt
IsAbove-of_not_rollback sequence (some latest) h = ground arith

pub replay_of-insert_eq :
    (id : String) (r : Replay) (replays : Dict String Replay)
    → replay_of id (insert id r replays) ≡ r
unfolding replay_of
replay_of-insert_eq id r replays = rw (lookup-insert_eq id id r replays refl, replay_of)

module _ (V : VissWriter) (S : StatusPublisher) where
  -- The request went to the writer, at `now`, and the tables took it over.
  pub record IsForwarded (endpoint : Endpoint) (request : Request) (now : ℕ) (p p' : State V S)
      : Type 0 where
    pub written : (V.set_value endpoint.request_path request.canonical p.viss).0 ≡ ok tt
    pub writer : (V.set_value endpoint.request_path request.canonical p.viss).1 ≡ p'.viss
    pub publisher : p'.kuksa ≡ p.kuksa
    pub spaced : IsSpaced now request.requested_state (lookup endpoint.endpoint_id p.last_forward)
    pub above :
        IsAbove request.identity.1.1
          (lookup (endpoint.endpoint_id, request.identity.1.0) p.latest_sequence)
    pub forward_kept :
        lookup endpoint.endpoint_id p'.last_forward ≡ some (now, request.requested_state)
    pub sequence_kept :
        lookup (endpoint.endpoint_id, request.identity.1.0) p'.latest_sequence
        ≡ some request.identity.1.1
    pub pending_kept : lookup (endpoint.endpoint_id, request.identity) p'.pending ≡ some endpoint
    pub replay_kept :
        lookup request.identity (replay_of endpoint.endpoint_id p'.replay)
        ≡ some (request.canonical, now)

  -- Nothing but the replay table of the path's endpoint changes.
  pub record IsUntouched (path : String) (p p' : State V S) : Type 0 where
    pub same_replay :
        (id : String)
        → ((endpoint : Endpoint)
            → lookup path endpoints ≡ some endpoint
            → id ≢ endpoint.endpoint_id)
        → lookup id p'.replay ≡ lookup id p.replay
    pub same_viss : p'.viss ≡ p.viss
    pub same_kuksa : p'.kuksa ≡ p.kuksa
    pub same_sequence : p'.latest_sequence ≡ p.latest_sequence
    pub same_forward : p'.last_forward ≡ p.last_forward
    pub same_pending : p'.pending ≡ p.pending

  IsUntouched-refl : (path : String) (p : State V S) → IsUntouched path p p
  IsUntouched-refl path p = record {
    same_replay = λ id other. refl;
    same_viss = refl;
    same_kuksa = refl;
    same_sequence = refl;
    same_forward = refl;
    same_pending = refl;
  }

  module _ (endpoint : Endpoint) (request : Request) (now : ℕ) where
    forward-IsForwarded :
        (replay : Replay) (p : State V S)
        → is_rollback request.identity.1.1
            (lookup (endpoint.endpoint_id, request.identity.1.0) p.latest_sequence)
          ≡ false
        → is_rate_limited now request.requested_state (lookup endpoint.endpoint_id p.last_forward)
          ≡ false
        → (forward V S endpoint request (remember V S endpoint request now replay p)).0.forwarded
          ≡ true
        → IsForwarded endpoint request now p
            (forward V S endpoint request (remember V S endpoint request now replay p)).1
    unfolding forward remember
    forward-IsForwarded replay p rising spaced h = record {
      written = ground arith;
      writer = refl;
      publisher = refl;
      spaced = IsSpaced-of_not_limited now request.requested_state _ spaced;
      above = IsAbove-of_not_rollback request.identity.1.1 _ rising;
      forward_kept =
          lookup-insert_eq endpoint.endpoint_id endpoint.endpoint_id _ p.last_forward refl;
      sequence_kept = lookup-trim_last _ _ 1023 p.latest_sequence;
      pending_kept = lookup-trim_last _ _ 1023 p.pending;
      replay_kept =
          ap (lookup request.identity) (replay_of-insert_eq endpoint.endpoint_id _ p.replay)
          ∙ lookup-trim_last request.identity (request.canonical, now) 511 replay;
    }

    admit-IsForwarded :
        (replay : Replay) (p : State V S)
        → (admit V S endpoint request now replay p).0.forwarded ≡ true
        → IsForwarded endpoint request now p (admit V S endpoint request now replay p).1
    unfolding admit
    admit-IsForwarded replay p h =
        elim (Bool-cases (
          is_rollback request.identity.1.1
            (lookup (endpoint.endpoint_id, request.identity.1.0) p.latest_sequence))) [
              | inl old ↦ absurd (ground arith)
              | inr rising ↦
                  elim (Bool-cases (
                    is_rate_limited now request.requested_state
                      (lookup endpoint.endpoint_id p.last_forward))) [
                        | inl soon ↦ absurd (ground arith)
                        | inr spaced ↦
                            rw (rising, spaced, admit)
                              (forward-IsForwarded replay p rising spaced
                                (rw (rising, spaced, admit) at h))
                      ]
            ]

    decide-IsForwarded :
        (p : State V S)
        → (decide V S endpoint request now p).0.forwarded ≡ true
        → IsForwarded endpoint request now p (decide V S endpoint request now p).1
    unfolding decide replayed
    decide-IsForwarded p h =
        let replay : Replay = expire_replay now (replay_of endpoint.endpoint_id p.replay) in
        let p' : State V S = record p { replay = insert endpoint.endpoint_id replay p.replay } in
        elim (Option-cases (lookup request.identity replay)) [
          | inl fresh ↦
              let f = admit-IsForwarded replay p' (rw (fresh, decide) at h) in
              rw (fresh, decide)
                (record {
                  written = f.written;
                  writer = f.writer;
                  publisher = f.publisher;
                  spaced = f.spaced;
                  above = f.above;
                  forward_kept = f.forward_kept;
                  sequence_kept = f.sequence_kept;
                  pending_kept = f.pending_kept;
                  replay_kept = f.replay_kept;
                })
          | inr (previous, old) ↦ absurd (ground arith)
        ]

    decide-same :
        (p : State V S)
        → (decide V S endpoint request now p).0.forwarded ≡ false
        → (decide V S endpoint request now p).0.reason ≢ "INTERNAL_ERROR"
        → let p' = (decide V S endpoint request now p).1 in
          let id = endpoint.endpoint_id in
          (p'.viss ≡ p.viss)
          × (p'.kuksa ≡ p.kuksa)
          × (p'.latest_sequence ≡ p.latest_sequence)
          × (p'.last_forward ≡ p.last_forward)
          × (p'.pending ≡ p.pending)
          × (p'.replay ≡ insert id (expire_replay now (replay_of id p.replay)) p.replay)
    unfolding decide admit forward
    decide-same p h e = ground arith

    -- Refused, or replayed, without an attempt to write.
    pub decide-IsUntouched :
        (path : String) (p : State V S)
        → lookup path endpoints ≡ some endpoint
        → (decide V S endpoint request now p).0.forwarded ≡ false
        → (decide V S endpoint request now p).0.reason ≢ "INTERNAL_ERROR"
        → IsUntouched path p (decide V S endpoint request now p).1
    unfolding decide admit forward
    decide-IsUntouched path p known h e =
        let (viss, kuksa, sequence, spaced, pending, replay) = decide-same p h e in
        record {
          same_replay = λ id other.
              ap (lookup id) replay
              ∙ lookup-insert_ne id endpoint.endpoint_id _ p.replay (other endpoint known);
          same_viss = viss;
          same_kuksa = kuksa;
          same_sequence = sequence;
          same_forward = spaced;
          same_pending = pending;
        }

  is_authorised-eq :
      (caller : Caller) (endpoint : Endpoint)
      → is_authorised V S caller endpoint ≡ true
      → (caller.authority ≡ "SERVICE_WRITE")
        × (caller.service_id ≡ endpoint.owner_service)
        × (caller.functional_profile ≡ endpoint.functional_profile)
  unfolding is_authorised
  is_authorised-eq caller endpoint h = ground arith

  module _ (py : Library) where
    pub canonical_object-eq :
        (raw : String) (bytes : ℕ) (fs : Fields)
        → canonical_object py raw bytes ≡ ok fs
        → raw ≡ canonical_json py fs
    unfolding canonical_object
    canonical_object-eq raw bytes fs h = ground arith

    pub canonical-read_request :
        (raw : String) (endpoint : Endpoint) (now_utc : Datetime) (r : Request)
        → read_request V S py raw endpoint now_utc ≡ ok r
        → r.canonical ≡ raw
    unfolding read_request
    canonical-read_request raw endpoint now_utc r h =
        let (fs, e, h₁) = >>=-eq-ok (canonical_object py raw max_request_bytes) _ h in
        let (_, _, h₂) = >>=-eq-ok (validate_request py fs endpoint now_utc) _ h₁ in
        let (i, _, h₃) = >>=-eq-ok (identity_of fs) _ h₂ in
        ap (λ (x : Request). x.canonical) (sym (ok-injective h₃))
        ∙ sym (canonical_object-eq raw max_request_bytes fs e)

    refused_by-forwarded :
        (x : Exception) (d : Decision) → refused_by V S x ≡ ok d → d.forwarded ≡ false
    unfolding refused_by
    refused_by-forwarded x d h = ground arith

    -- A decision that says `forwarded` comes only for the request path of an endpoint, from the
    -- endpoint's authorised caller, on a text that passed validation. The write took exactly that
    -- text; the sequence number is above the latest of the epoch, and the last forward of the
    -- endpoint is one second past, or ten if the requested state is the same. The tables then hold
    -- this request.
    pub handle_request-forwarded :
        (caller : Caller) (path raw : String) (now_utc : Datetime) (now : ℕ) (p : State V S)
        (d : Decision)
        → (handle_request V S py caller path raw now_utc now p).0 ≡ ok d
        → d.forwarded ≡ true
        → (endpoint : Endpoint) × (request : Request) × (lookup path endpoints ≡ some endpoint)
          × (caller.authority ≡ "SERVICE_WRITE")
          × (caller.service_id ≡ endpoint.owner_service)
          × (caller.functional_profile ≡ endpoint.functional_profile)
          × (read_request V S py raw endpoint now_utc ≡ ok request)
          × (request.canonical ≡ raw)
          × IsForwarded endpoint request now p
              (handle_request V S py caller path raw now_utc now p).1
    unfolding handle_request
    handle_request-forwarded caller path raw now_utc now p d h f =
        elim (Option-cases (lookup path endpoints)) [
          | inl unknown ↦ absurd (ground arith)
          | inr (endpoint, known) ↦ elim (Bool-cases (is_authorised V S caller endpoint)) [
            | inr other ↦ absurd (ground arith)
            | inl allowed ↦ elim (Result-cases (read_request V S py raw endpoint now_utc)) [
              | inr (x, bad) ↦ absurd (ground (arith, refused_by-forwarded x d))
              | inl (request, good) ↦
                  let (a, b, c) = is_authorised-eq caller endpoint allowed in
                  let e : ok (decide V S endpoint request now p).0 ≡ ok d =
                    rw (known, allowed, good, handle_request) at h in
                  (
                    endpoint,
                    request,
                    known,
                    a,
                    b,
                    c,
                    good,
                    canonical-read_request raw endpoint now_utc request good,
                    rw (known, allowed, good, handle_request)
                        (decide-IsForwarded endpoint request now p
                          (ap (λ (x : Decision). x.forwarded) (ok-injective e) ∙ f)),
                  )
            ]
          ]
        ]

    -- A request that is refused with another reason than "INTERNAL_ERROR", or answered as a replay,
    -- touches no more than the replay table of the path's endpoint: neither that of another endpoint,
    -- nor the writer or the publisher, nor the tables of sequences, of forwards and of pending statuses.
    pub handle_request-IsUntouched :
        (caller : Caller) (path raw : String) (now_utc : Datetime) (now : ℕ) (p : State V S)
        (d : Decision)
        → (handle_request V S py caller path raw now_utc now p).0 ≡ ok d
        → d.forwarded ≡ false
        → d.reason ≢ "INTERNAL_ERROR"
        → IsUntouched path p (handle_request V S py caller path raw now_utc now p).1
    unfolding handle_request
    handle_request-IsUntouched caller path raw now_utc now p d h f e =
        elim (Option-cases (lookup path endpoints)) [
          | inl unknown ↦ rw (unknown, handle_request) (IsUntouched-refl path p)
          | inr (endpoint, known) ↦ elim (Bool-cases (is_authorised V S caller endpoint)) [
            | inr other ↦ rw (known, other, handle_request) (IsUntouched-refl path p)
            | inl allowed ↦ elim (Result-cases (read_request V S py raw endpoint now_utc)) [
              | inr (x, bad) ↦ rw (known, allowed, bad, handle_request) (IsUntouched-refl path p)
              | inl (request, good) ↦
                  let s : ok (decide V S endpoint request now p).0 ≡ ok d =
                    rw (known, allowed, good, handle_request) at h in
                  let t = ok-injective s in
                  rw (known, allowed, good, handle_request)
                    (decide-IsUntouched endpoint request now path p known
                      (ap (λ (x : Decision). x.forwarded) t ∙ f)
                      (λ i. e (sym (ap (λ (x : Decision). x.reason) t) ∙ i)))
            ]
          ]
        ]
