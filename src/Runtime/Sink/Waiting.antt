-- ===== src/Runtime/Sink/Waiting.antt =====
-- The loop of `KuksaSink.publish` that waits for the source's timestamps to pass.
use aos_vehicle_platform.Prelude.{
  ℕ, zero, suc, ◌+◌, ◌-◌, ◌≤◌, leb, String, ◌≡◌, ◌≢◌, refl, sym, ap, ◌∙◌, subst, true, false, inl,
  inr, Option, none, some, arith, Result, ok, err, Bool-cases, Option-cases, kuksa_unavailable,
  string_eq, leb→le,
}
use aos_vehicle_platform.Runtime.Sink.{
  Databroker, KuksaSink, publication_budget, wait_until, wait_for, connect, nap, opened, use_token,
  is_unusable,
}

-- What the code relies on: the monotonic clock does not go back, and `sleep` lasts as long as it is
-- asked to.
pub record IsClock (D : Databroker) : Type 0 where
  pub pass_forward : (w : D.World) → D.monotonic w ≤ D.monotonic (D.pass w)
  pub sleep_forward : (d : ℕ) (w : D.World) → D.monotonic w + d ≤ D.monotonic (D.sleep d w)
  pub read_forward : (w : D.World) → D.monotonic w ≤ D.monotonic ((D.read_token w).1)
  pub connected_forward :
      (token : String) (w : D.World) → D.monotonic w ≤ D.monotonic ((D.connected_client token w).1)

-- From one world to another by nothing but sleep.
pub data Waits (D : Databroker) : D.World → D.World → Type 0 where
  no_wait : (w : D.World) → Waits D w w
  napped : (d : ℕ) (w w' : D.World) → Waits D (D.sleep d (D.pass w)) w' → Waits D w w'

-- The fuel is enough: a result is returned.
abbrev pub Ends : {A : Type 0} → Option A → Type 0
Ends {A = A} computed = (out : A) × (computed ≡ some out)

module _ {W : Type 0} where
  pub waited-injective :
      {w w' : W}
      → ◌≡◌ {A = Option (Result (Unit {0}) × W)} (some (ok tt, w)) (some (ok tt, w'))
      → w ≡ w'
  waited-injective h = cc

  late-ne-waited :
      {w w' : W}
      → ◌≢◌ {A = Option (Result (Unit {0}) × W)}
          (some (err kuksa_unavailable, w))
          (some (ok tt, w'))
  late-ne-waited h = cc

module _ (D : Databroker) where
  wait_until-there :
      (fuel latest deadline : ℕ) (w : D.World)
      → leb latest (D.time w) ≡ true
      → wait_until D (suc fuel) latest deadline w ≡ some (ok tt, w)
  unfolding wait_until
  wait_until-there fuel latest deadline w there = rw (there, wait_until) refl

  wait_until-late :
      (fuel latest deadline : ℕ) (w : D.World)
      → leb latest (D.time w) ≡ false
      → leb (deadline - D.monotonic (D.pass w)) (latest - D.time w) ≡ true
      → wait_until D (suc fuel) latest deadline w ≡ some (err kuksa_unavailable, D.pass w)
  unfolding wait_until
  wait_until-late fuel latest deadline w ahead late = rw (ahead, late, wait_until) refl

  wait_until-nap :
      (fuel latest deadline : ℕ) (w : D.World)
      → leb latest (D.time w) ≡ false
      → leb (deadline - D.monotonic (D.pass w)) (latest - D.time w) ≡ false
      → wait_until D (suc fuel) latest deadline w
        ≡ wait_until D fuel latest deadline (D.sleep (nap (latest - D.time w)) (D.pass w))
  unfolding wait_until
  wait_until-nap fuel latest deadline w ahead in_time = rw (ahead, in_time, wait_until) refl

  -- A wait that ends well has seen the time reach the timestamp, and did nothing but sleep.
  pub wait_until-reached :
      (fuel latest deadline : ℕ) (w w' : D.World)
      → wait_until D fuel latest deadline w ≡ some (ok tt, w')
      → (latest ≤ D.time w') × Waits D w w'
  unfolding wait_until
  wait_until-reached zero latest deadline w w' h = cc
  wait_until-reached (suc fuel) latest deadline w w' h = elim (Bool-cases (leb latest (D.time w))) [
    | inl there ↦
        subst (λ (x : D.World). (latest ≤ D.time x) × Waits D w x)
          (waited-injective (sym (wait_until-there fuel latest deadline w there) ∙ h))
          (leb→le latest (D.time w) there, no_wait w)
    | inr ahead ↦ elim (Bool-cases (leb (deadline - D.monotonic (D.pass w)) (latest - D.time w))) [
      | inl late ↦
          absurd (late-ne-waited (sym (wait_until-late fuel latest deadline w ahead late) ∙ h))
      | inr in_time ↦
          let (reached, slept) =
            wait_until-reached fuel latest deadline (D.sleep (nap (latest - D.time w)) (D.pass w))
              w' (sym (wait_until-nap fuel latest deadline w ahead in_time) ∙ h) in
          (reached, napped (nap (latest - D.time w)) w w' slept)
    ]
  ]

module _ (D : Databroker) (C : IsClock D) where
  nap-positive : (n : ℕ) → 1 ≤ n → 1 ≤ nap n
  unfolding nap
  nap-positive n h = ground arith

  -- A nap brings the deadline nearer.
  nap-nearer :
      (n latest deadline : ℕ) (w : D.World)
      → deadline ≤ D.monotonic w + suc n
      → leb latest (D.time w) ≡ false
      → deadline ≤ D.monotonic (D.sleep (nap (latest - D.time w)) (D.pass w)) + n
  nap-nearer n latest deadline w enough ahead = omega (
    arith,
    enough,
    C.pass_forward w,
    C.sleep_forward (nap (latest - D.time w)) (D.pass w),
    nap-positive (latest - D.time w) (ground arith),
  )

  -- A round ends the wait, or naps.
  round_terminates :
      (n latest deadline : ℕ) (w : D.World)
      → (leb latest (D.time w) ≡ false
          → leb (deadline - D.monotonic (D.pass w)) (latest - D.time w) ≡ false
          → Ends (wait_until D (suc n) latest deadline w))
      → Ends (wait_until D (suc n) latest deadline w)
  round_terminates n latest deadline w napping = elim (Bool-cases (leb latest (D.time w))) [
    | inl there ↦ ((ok tt, w), wait_until-there D n latest deadline w there)
    | inr ahead ↦ elim (Bool-cases (leb (deadline - D.monotonic (D.pass w)) (latest - D.time w))) [
      | inl late ↦
          ((err kuksa_unavailable, D.pass w), wait_until-late D n latest deadline w ahead late)
      | inr in_time ↦ napping ahead in_time
    ]
  ]

  wait_until_terminates :
      (n latest deadline : ℕ) (w : D.World)
      → deadline ≤ D.monotonic w + n
      → Ends (wait_until D (suc n) latest deadline w)
  wait_until_terminates zero latest deadline w enough =
      round_terminates zero latest deadline w
        (λ ahead in_time. absurd (ground (arith, C.pass_forward w)))
  wait_until_terminates (suc n) latest deadline w enough =
      round_terminates (suc n) latest deadline w (λ ahead in_time.
        let (out, ends) =
          wait_until_terminates n latest deadline (D.sleep (nap (latest - D.time w)) (D.pass w))
            (nap-nearer n latest deadline w enough ahead) in
        (out, wait_until-nap D (suc n) latest deadline w ahead in_time ∙ ends))

  opened-forward :
      (c : Result D.Client × D.World) → D.monotonic c.1 ≤ D.monotonic ((opened D c).1.world)
  unfolding opened
  opened-forward (ok client, w) = omega arith
  opened-forward (err e, w) = omega arith

  use_token-forward :
      (c : Option String × D.World) → D.monotonic c.1 ≤ D.monotonic ((use_token D c).1.world)
  unfolding use_token
  use_token-forward (none, w) = omega arith
  use_token-forward (some token, w) = elim (Bool-cases (is_unusable token)) [
    | inl unusable ↦ rw (unusable, use_token) (omega arith)
    | inr usable ↦
        rw (usable, use_token)
          (omega (arith, C.connected_forward token w, opened-forward (D.connected_client token w)))
  ]

  connect-forward : (s : KuksaSink D) → D.monotonic s.world ≤ D.monotonic ((connect D s).1.world)
  unfolding connect
  connect-forward s = elim (Option-cases s.client) [
    | inl absent ↦
        rw (absent, connect)
          (omega (arith, C.read_forward s.world, use_token-forward (D.read_token s.world)))
    | inr (client, present) ↦ rw (present, connect) (omega arith)
  ]

  -- The wait of `publish` ends, whatever the timestamps of the frame are, if `connect` gave a client:
  -- the budget of two seconds bounds its rounds.
  pub wait_for_terminates :
      (s s' : KuksaSink D) (client : D.Client) (latest : Option ℕ)
      → connect D (record s { world = D.pass s.world }) ≡ (ok client, s')
      → Ends (wait_for D latest (D.monotonic s.world + publication_budget) s'.world)
  unfolding wait_for
  wait_for_terminates s s' client none h = ((ok tt, s'.world), refl)
  wait_for_terminates s s' client (some latest) h =
      wait_until_terminates publication_budget latest (D.monotonic s.world + publication_budget)
        s'.world
        (omega (
          arith,
          C.pass_forward s.world,
          connect-forward (record s { world = D.pass s.world }),
          ap (λ (c : Result D.Client × KuksaSink D). D.monotonic c.1.world) h,
        ))
