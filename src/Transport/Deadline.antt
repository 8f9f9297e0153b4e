-- ===== src/Transport/Deadline.antt =====
-- The first loop of `AdvisoryTransport.tick` (advisory_transport.py), and a tick with no session.
use aos_vehicle_platform.Prelude.{
  ℕ, ◌<◌, leb, String, ◌≡◌, refl, ap, ◌∙◌, Bool, true, false, ◌&&◌, ◌||◌, [], ◌∷◌, arith, ◌==◌,
  string_eq, if◌then◌else◌, ok, ◌⊎◌, inl, inr, Bool-cases,
}
use aos_vehicle_platform.Prelude.Dict.{Dict, erase}
use aos_vehicle_platform.Python.{Library, Datetime}
use aos_vehicle_platform.Advisory.Policy.{StatusPublisher}
use aos_vehicle_platform.Transport.Producer.{Targets}
use aos_vehicle_platform.Transport.Session.{Environment}
use aos_vehicle_platform.Transport.{
  Transport, State, with_link, report, expire_one, expire_pending, tick_attached, tick_session,
  tick,
}

-- All deadlines are to come.
abbrev pub IsTimely : ℕ → Dict String (String × ℕ) → Type 0
IsTimely now [] = Unit
IsTimely now ((id, (path, deadline)) ∷ rest) = (now < deadline) × IsTimely now rest

-- The request is among these, overdue.
is_overdue : ℕ → String → Dict String (String × ℕ) → Bool
is_overdue now id [] = false
is_overdue now id ((i, (path, deadline)) ∷ rest) =
    id == i && leb deadline now || is_overdue now id rest

-- What is overdue of `d` is among the requests still to be looked at.
abbrev IsCovered : ℕ → Dict String (String × ℕ) → Dict String (String × ℕ) → Type 0
IsCovered now work [] = Unit
IsCovered now work ((id, (path, deadline)) ∷ rest) =
    ((now < deadline) ⊎ (is_overdue now id work ≡ true)) × IsCovered now work rest

IsCovered-more :
    (now : ℕ) (w : String × (String × ℕ)) (work d : Dict String (String × ℕ))
    → IsCovered now work d
    → IsCovered now (w ∷ work) d
unfolding is_overdue
IsCovered-more now w work [] c = tt
IsCovered-more now (i, (p, t)) work ((id, (path, deadline)) ∷ rest) (a, c) =
    (ground arith, IsCovered-more now (i, (p, t)) work rest c)

IsCovered-self : (now : ℕ) (d : Dict String (String × ℕ)) → IsCovered now d d
unfolding is_overdue
IsCovered-self now [] = tt
IsCovered-self now ((id, (path, deadline)) ∷ rest) =
    (ground arith, IsCovered-more now (id, (path, deadline)) rest rest (IsCovered-self now rest))

IsCovered-erase :
    (now : ℕ) (i p : String) (t : ℕ) (work d : Dict String (String × ℕ))
    → IsCovered now ((i, (p, t)) ∷ work) d
    → IsCovered now work (erase i d)
unfolding is_overdue erase
IsCovered-erase now i p t work [] c = tt
IsCovered-erase now i p t work ((id, (path, deadline)) ∷ rest) (a, c) =
    elim (Bool-cases (i == id)) [
      | inl same ↦ rw (same, erase) (IsCovered-erase now i p t work rest c)
      | inr other ↦ rw (other, erase) (ground arith, IsCovered-erase now i p t work rest c)
    ]

IsCovered-drop :
    (now : ℕ) (i p : String) (t : ℕ) (work d : Dict String (String × ℕ))
    → leb t now ≡ false
    → IsCovered now ((i, (p, t)) ∷ work) d
    → IsCovered now work d
unfolding is_overdue
IsCovered-drop now i p t work [] early c = tt
IsCovered-drop now i p t work ((id, (path, deadline)) ∷ rest) early (a, c) =
    (ground arith, IsCovered-drop now i p t work rest early c)

IsCovered-IsTimely : (now : ℕ) (d : Dict String (String × ℕ)) → IsCovered now [] d → IsTimely now d
unfolding is_overdue
IsCovered-IsTimely now [] c = tt
IsCovered-IsTimely now ((id, (path, deadline)) ∷ rest) (a, c) =
    (ground arith, IsCovered-IsTimely now rest c)

-- The session, the outside and what was sent and seen are the same.
pub record IsQuiet {E S : Type 0} (t t' : Transport E S) : Type 0 where
  pub same_environment : t'.policy.viss.environment ≡ t.policy.viss.environment
  pub same_attached : t'.policy.viss.attached ≡ t.policy.viss.attached
  pub same_kuksa : t'.policy.kuksa ≡ t.policy.kuksa
  pub same_replay : t'.policy.replay ≡ t.policy.replay
  pub same_sequence : t'.policy.latest_sequence ≡ t.policy.latest_sequence
  pub same_forward : t'.policy.last_forward ≡ t.policy.last_forward
  pub same_awaited : t'.policy.pending ≡ t.policy.pending
  pub same_targets : t'.seen_targets ≡ t.seen_targets
  pub same_statuses : t'.seen_statuses ≡ t.seen_statuses
  pub same_confirmed : t'.availability_confirmed ≡ t.availability_confirmed

module _ {E S : Type 0} where
  IsQuiet-refl : (t : Transport E S) → IsQuiet t t
  IsQuiet-refl t = record {
    same_environment = refl;
    same_attached = refl;
    same_kuksa = refl;
    same_replay = refl;
    same_sequence = refl;
    same_forward = refl;
    same_awaited = refl;
    same_targets = refl;
    same_statuses = refl;
    same_confirmed = refl;
  }

  IsQuiet-trans : (a b c : Transport E S) → IsQuiet a b → IsQuiet b c → IsQuiet a c
  IsQuiet-trans a b c p q = record {
    same_environment = q.same_environment ∙ p.same_environment;
    same_attached = q.same_attached ∙ p.same_attached;
    same_kuksa = q.same_kuksa ∙ p.same_kuksa;
    same_replay = q.same_replay ∙ p.same_replay;
    same_sequence = q.same_sequence ∙ p.same_sequence;
    same_forward = q.same_forward ∙ p.same_forward;
    same_awaited = q.same_awaited ∙ p.same_awaited;
    same_targets = q.same_targets ∙ p.same_targets;
    same_statuses = q.same_statuses ∙ p.same_statuses;
    same_confirmed = q.same_confirmed ∙ p.same_confirmed;
  }

  expire_one-IsQuiet :
      (now : ℕ) (id path : String) (t : Transport E S) → IsQuiet t (expire_one now id path t)
  unfolding expire_one report with_link
  expire_one-IsQuiet now id path t = record {
    same_environment = ground arith;
    same_attached = ground arith;
    same_kuksa = ground arith;
    same_replay = ground arith;
    same_sequence = ground arith;
    same_forward = ground arith;
    same_awaited = ground arith;
    same_targets = ground arith;
    same_statuses = ground arith;
    same_confirmed = ground arith;
  }

  expire_one-pending :
      (now : ℕ) (id path : String) (t : Transport E S)
      → (expire_one now id path t).policy.viss.pending ≡ erase id t.policy.viss.pending
  unfolding expire_one report with_link
  expire_one-pending now id path t = ground arith

  expire_pending-IsQuiet :
      (now : ℕ) (work : Dict String (String × ℕ)) (t : Transport E S)
      → IsQuiet t (expire_pending now work t)
  unfolding expire_pending
  expire_pending-IsQuiet now [] t = IsQuiet-refl t
  expire_pending-IsQuiet now ((id, (path, deadline)) ∷ rest) t =
      elim (Bool-cases (leb deadline now)) [
        | inr early ↦ rw (early, expire_pending) (expire_pending-IsQuiet now rest t)
        | inl late ↦
            rw (late, expire_pending)
              (IsQuiet-trans t (expire_one now id path t) _ (expire_one-IsQuiet now id path t)
                (expire_pending-IsQuiet now rest (expire_one now id path t)))
      ]

  expire_pending-IsCovered :
      (now : ℕ) (work : Dict String (String × ℕ)) (t : Transport E S)
      → IsCovered now work t.policy.viss.pending
      → IsTimely now (expire_pending now work t).policy.viss.pending
  unfolding expire_pending
  expire_pending-IsCovered now [] t c = IsCovered-IsTimely now t.policy.viss.pending c
  expire_pending-IsCovered now ((id, (path, deadline)) ∷ rest) t c =
      elim (Bool-cases (leb deadline now)) [
        | inr early ↦
            rw (early, expire_pending)
              (expire_pending-IsCovered now rest t
                (IsCovered-drop now id path deadline rest t.policy.viss.pending early c))
        | inl late ↦
            rw (late, expire_pending)
              (expire_pending-IsCovered now rest (expire_one now id path t) (
                rw (expire_one-pending now id path t)
                  (IsCovered-erase now id path deadline rest t.policy.viss.pending c)))
      ]

module _ (E : Environment) (S : StatusPublisher) (py : Library) where
  tick_session-eq :
      (now_utc : Datetime) (now : ℕ) (targets : Targets) (t : State E S py)
      → t.policy.viss.attached ≡ false
      → tick_session E S py now_utc now targets t ≡ (ok tt, t)
  unfolding tick_session
  tick_session-eq now_utc now targets t gone =
      ap (λ b. if b then tick_attached E S py now_utc now targets t else (ok tt, t)) gone

  -- A tick while no session is attached returns normally. It reads the clock once and does nothing
  -- else outside: it sends nothing, asks the policy nothing, and takes no target as seen. The requests
  -- in flight that are left have their deadlines after that reading.
  pub tick-IsQuiet :
      (now_utc : Datetime) (targets : Targets) (t : State E S py)
      → t.policy.viss.attached ≡ false
      → ((tick E S py now_utc targets t).0 ≡ ok tt)
        × IsQuiet
            (with_link
              (record t.policy.viss { environment = (E.monotonic t.policy.viss.environment).1 })
              t)
            (tick E S py now_utc targets t).1
        × IsTimely
            (E.monotonic t.policy.viss.environment).0
            (tick E S py now_utc targets t).1.policy.viss.pending
  unfolding tick with_link
  tick-IsQuiet now_utc targets t gone =
      let (now, e) = E.monotonic t.policy.viss.environment in
      let t₁ = with_link (record t.policy.viss { environment = e }) t in
      let quiet = expire_pending-IsQuiet now t₁.policy.viss.pending t₁ in
      let timely =
        expire_pending-IsCovered now t₁.policy.viss.pending t₁
          (IsCovered-self now t₁.policy.viss.pending) in
      let t₂ = expire_pending now t₁.policy.viss.pending t₁ in
      let done = tick_session-eq now_utc now targets t₂ (quiet.same_attached ∙ gone) in
      rw done (refl, quiet, timely)
