-- ===== src/Advisory/Policy/Replay.antt =====
-- Retries of a request at `AdvisoryPolicy.handle_request` (advisory.py).
use aos_vehicle_platform.Prelude.{
  ℕ, ◌-◌, ◌<◌, String, ◌≡◌, ◌≢◌, refl, sym, ◌∙◌, ap, true, false, ◌⊎◌, inl, inr, some, [], ◌∷◌,
  arith, string_eq, pair_eq, nat_eq, Result, ok, Option-cases, Bool-cases, ok-injective, subst,
}
use text.Mathlib.TextEquality.{eq_iff}
use aos_vehicle_platform.Prelude.Dict.{lookup, insert, lookup-trim_last}
use aos_vehicle_platform.Python.{Library, Datetime}
use aos_vehicle_platform.Advisory.Endpoint.{
  Endpoint, endpoints, Caller, Decision, refused, replay_retention,
}
use aos_vehicle_platform.Advisory.Request.{Identity}
use aos_vehicle_platform.Advisory.Policy.{
  VissWriter, StatusPublisher, State, Replay, Request, replay_of, expire_replay, is_rollback,
  is_rate_limited, remember, forward, replayed, admit, decide, handle_request, read_request,
  is_authorised,
}
use aos_vehicle_platform.Advisory.Policy.Forward.{
  IsUntouched, decide-IsUntouched, replay_of-insert_eq,
}

-- An entry younger than the retention survives the expiry.
lookup-expire_replay :
    (now at : ℕ) (identity : Identity) (canonical : String) (r : Replay)
    → lookup identity r ≡ some (canonical, at)
    → now - at < replay_retention
    → lookup identity (expire_replay now r) ≡ some (canonical, at)
unfolding lookup expire_replay
lookup-expire_replay now at identity canonical [] h young = cc
lookup-expire_replay now at identity canonical ((i, (c, t)) ∷ rest) h young =
    ground (arith, lookup-expire_replay now at identity canonical rest)

abbrev pub idempotent : Decision
idempotent = record {
  accepted = true;
  reason = "IDEMPOTENT_NO_NEW_EFFECT";
  forwarded = false;
  application_success = false;
}

rollback-ne : ◌≢◌ {A = String} "SEQUENCE_ROLLBACK" "INTERNAL_ERROR"
rollback-ne = ground (arith, eq_iff "SEQUENCE_ROLLBACK" "INTERNAL_ERROR")

limited-ne : ◌≢◌ {A = String} "RATE_LIMITED" "INTERNAL_ERROR"
limited-ne = ground (arith, eq_iff "RATE_LIMITED" "INTERNAL_ERROR")

replay-ne : ◌≢◌ {A = String} "REPLAY_DETECTED" "INTERNAL_ERROR"
replay-ne = ground (arith, eq_iff "REPLAY_DETECTED" "INTERNAL_ERROR")

source-ne : ◌≢◌ {A = String} "UNAUTHORIZED_SOURCE" "INTERNAL_ERROR"
source-ne = ground (arith, eq_iff "UNAUTHORIZED_SOURCE" "INTERNAL_ERROR")

idempotent-ne : ◌≢◌ {A = String} "IDEMPOTENT_NO_NEW_EFFECT" "INTERNAL_ERROR"
idempotent-ne = ground (arith, eq_iff "IDEMPOTENT_NO_NEW_EFFECT" "INTERNAL_ERROR")

module _ (V : VissWriter) (S : StatusPublisher) where
  -- A write was tried.
  abbrev pub IsAttempt : Decision → Type 0
  IsAttempt d = (d.forwarded ≡ true) ⊎ (d ≡ refused "INTERNAL_ERROR")

  not-IsAttempt : (reason : String) → reason ≢ "INTERNAL_ERROR" → ¬ IsAttempt (refused reason)
  not-IsAttempt reason n (inl e) = cc
  not-IsAttempt reason n (inr e) = n (ap (λ (d : Decision). d.reason) e)

  replayed_not-IsAttempt :
      (canonical previous : String) → ¬ IsAttempt (replayed V S canonical previous)
  unfolding replayed
  replayed_not-IsAttempt canonical previous (inl e) = ground arith
  replayed_not-IsAttempt canonical previous (inr e) =
      ground (arith, replay-ne, idempotent-ne, ap (λ (d : Decision). d.reason) e)

  abbrev IsRemembered : Endpoint → Request → ℕ → State V S → Type 0
  IsRemembered endpoint request now p =
      lookup request.identity (replay_of endpoint.endpoint_id p.replay)
      ≡ some (request.canonical, now)

  module _ (endpoint : Endpoint) (request : Request) where
    remember-IsRemembered :
        (now : ℕ) (replay : Replay) (p : State V S)
        → IsRemembered endpoint request now
            (forward V S endpoint request (remember V S endpoint request now replay p)).1
    unfolding forward remember
    remember-IsRemembered now replay p =
        ap (lookup request.identity) (replay_of-insert_eq endpoint.endpoint_id _ p.replay)
        ∙ lookup-trim_last request.identity (request.canonical, now) 511 replay

    admit-IsRemembered :
        (now : ℕ) (replay : Replay) (p : State V S)
        → IsAttempt (admit V S endpoint request now replay p).0
        → IsRemembered endpoint request now (admit V S endpoint request now replay p).1
    unfolding admit
    admit-IsRemembered now replay p h =
        elim (Bool-cases (
          is_rollback request.identity.1.1
            (lookup (endpoint.endpoint_id, request.identity.1.0) p.latest_sequence))) [
              | inl old ↦
                  absurd (not-IsAttempt "SEQUENCE_ROLLBACK" rollback-ne (rw (old, admit) at h))
              | inr rising ↦
                  elim (Bool-cases (
                    is_rate_limited now request.requested_state
                      (lookup endpoint.endpoint_id p.last_forward))) [
                        | inl soon ↦ absurd (
                            not-IsAttempt "RATE_LIMITED" limited-ne (rw (rising, soon, admit) at h))
                        | inr spaced ↦
                            rw (rising, spaced, admit) (remember-IsRemembered now replay p)
                      ]
            ]

    decide-IsRemembered :
        (now : ℕ) (p : State V S)
        → IsAttempt (decide V S endpoint request now p).0
        → IsRemembered endpoint request now (decide V S endpoint request now p).1
    unfolding decide
    decide-IsRemembered now p h =
        let replay : Replay = expire_replay now (replay_of endpoint.endpoint_id p.replay) in
        let p' : State V S = record p { replay = insert endpoint.endpoint_id replay p.replay } in
        elim (Option-cases (lookup request.identity replay)) [
          | inl fresh ↦
              rw (fresh, decide) (admit-IsRemembered now replay p' (rw (fresh, decide) at h))
          | inr (previous, old) ↦
              absurd (replayed_not-IsAttempt request.canonical previous.0 (rw (old, decide) at h))
        ]

    decide_again :
        (path : String) (now now' : ℕ) (p : State V S)
        → lookup path endpoints ≡ some endpoint
        → IsRemembered endpoint request now p
        → now' - now < replay_retention
        → ((decide V S endpoint request now' p).0 ≡ idempotent)
          × IsUntouched V S path p (decide V S endpoint request now' p).1
    unfolding decide replayed
    decide_again path now now' p known kept young =
        let e =
          lookup-expire_replay now' now request.identity request.canonical
            (replay_of endpoint.endpoint_id p.replay) kept young in
        let same : (decide V S endpoint request now' p).0 ≡ idempotent = ground arith in
        (
          same,
          decide-IsUntouched V S endpoint request now' path p known
              (ap (λ (d : Decision). d.forwarded) same)
              (λ internal. idempotent-ne (sym (ap (λ (d : Decision). d.reason) same) ∙ internal)),
        )

  module _ (py : Library) where
    handle_request-eq_decide :
        (caller : Caller) (path raw : String) (utc : Datetime) (now : ℕ) (p : State V S)
        (endpoint : Endpoint) (r : Request)
        → lookup path endpoints ≡ some endpoint
        → is_authorised V S caller endpoint ≡ true
        → read_request V S py raw endpoint utc ≡ ok r
        → handle_request V S py caller path raw utc now p
          ≡ (ok (decide V S endpoint r now p).0, (decide V S endpoint r now p).1)
    unfolding handle_request
    handle_request-eq_decide caller path raw utc now p endpoint r known allowed good =
        rw (known, allowed, good, handle_request) refl

    -- A request whose write was tried, whether it was forwarded or failed, comes again with the same
    -- text within the retention of 300 seconds, and still passes validation: it is answered
    -- "IDEMPOTENT_NO_NEW_EFFECT", as accepted, and nothing is written.
    pub retry_is_idempotent :
        (caller : Caller) (path raw : String) (utc utc' : Datetime) (now now' : ℕ) (p : State V S)
        (d : Decision) (endpoint : Endpoint) (r : Request)
        → lookup path endpoints ≡ some endpoint
        → read_request V S py raw endpoint utc ≡ ok r
        → read_request V S py raw endpoint utc' ≡ ok r
        → (handle_request V S py caller path raw utc now p).0 ≡ ok d
        → IsAttempt d
        → now' - now < replay_retention
        → ((handle_request V S py caller path raw utc' now'
              (handle_request V S py caller path raw utc now p).1).0
            ≡ ok idempotent)
          × IsUntouched V S path
              (handle_request V S py caller path raw utc now p).1
              (handle_request V S py caller path raw utc' now'
                (handle_request V S py caller path raw utc now p).1).1
    unfolding handle_request
    retry_is_idempotent caller path raw utc utc' now now' p d endpoint r known first again h a
          young =
        elim (Bool-cases (is_authorised V S caller endpoint)) [
          | inr denied ↦ absurd (
              not-IsAttempt "UNAUTHORIZED_SOURCE" source-ne
                (subst IsAttempt (sym (ok-injective (rw (known, denied, handle_request) at h))) a))
          | inl allowed ↦
              let p₁ : State V S = (decide V S endpoint r now p).1 in
              let once =
                handle_request-eq_decide caller path raw utc now p endpoint r known allowed first in
              let twice =
                handle_request-eq_decide caller path raw utc' now' p₁ endpoint r known allowed
                  again in
              let tried : IsAttempt (decide V S endpoint r now p).0 =
                subst IsAttempt
                  (ok-injective (sym h ∙ ap (λ (x : Result Decision × State V S). x.0) once)) a in
              let result =
                decide_again endpoint r path now now' p₁ known
                  (decide-IsRemembered endpoint r now p tried) young in
              rw (once, twice) (ap ok result.0, result.1)
        ]
