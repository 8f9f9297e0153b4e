-- ===== src/Runtime/Sink/Sent.antt =====
-- What `KuksaSink.publish` sent when it returned, and what it leaves when it raised.
use aos_vehicle_platform.Prelude.{
  ℕ, suc, ◌+◌, ◌-◌, ◌≤◌, ◌<◌, leb, String, ◌≡◌, ◌≢◌, refl, ap, ◌∙◌, subst, inl, inr, Option, none,
  some, List, [], ◌∷◌, arith, Result, ok, err, Exception, other_error, kuksa_unavailable,
  Bool-cases, Option-cases, Result-cases, ok-injective, >>=-eq-ok, string_eq,
}
use aos_vehicle_platform.Prelude.Lists.{All}
use aos_vehicle_platform.Prelude.Dict.{lookup}
use aos_vehicle_platform.Bridge.Signal.{SignalSpec, SignalValue}
use aos_vehicle_platform.Bridge.Snapshot.{Values}
use aos_vehicle_platform.Runtime.Sink.{
  Databroker, KuksaSink, publication_budget, value_at, updates_of, later, latest_after, wait_for,
  connect, close, raise_after, close_and_raise, after_set, raised_by_publish, set_in_time,
  after_wait, after_connect, publish,
}
use aos_vehicle_platform.Runtime.Sink.Waiting.{wait_until-reached, Waits, no_wait, waited-injective}

-- The updates are those of the signals, in their order, each with its value.
abbrev pub Gathered : List SignalSpec → Values → Values → Type 0
Gathered [] values [] = Unit
Gathered [] values (u ∷ updates) = ⊥
Gathered (signal ∷ signals) values [] = ⊥
Gathered (signal ∷ signals) values ((path, item) ∷ updates) =
    (path ≡ signal.path) × (lookup signal.path values ≡ some item) × Gathered signals values updates

-- The time has reached the latest timestamp.
abbrev Reaches : ℕ → Option ℕ → Type 0
Reaches now none = Unit
Reaches now (some latest) = latest ≤ now

-- A value's timestamp is not in the future.
abbrev pub IsPast : ℕ → Option SignalValue → Type 0
IsPast now none = Unit
IsPast now (some item) = item.timestamp ≤ now

latest_after-IsPast :
    (now : ℕ) (latest : Option ℕ) (item : Option SignalValue)
    → Reaches now (latest_after latest item)
    → Reaches now latest × IsPast now item
unfolding latest_after later
latest_after-IsPast now latest none h = (h, tt)
latest_after-IsPast now none (some item) h = (tt, h)
latest_after-IsPast now (some latest) (some item) h = (ground arith, ground arith)

value_at-lookup :
    (path : String) (values : Values) (item : Option SignalValue)
    → value_at path values ≡ ok item
    → lookup path values ≡ some item
unfolding value_at
value_at-lookup path values item h = ground (arith)

-- What the loop over the signals returns.
record IsGathered (now : ℕ) (signals : List SignalSpec) (values : Values) (latest : Option ℕ)
    (updates : Values) : Type 0 where
  gathered : Gathered signals values updates
  before : Reaches now latest
  past : All (λ u. IsPast now u.1) updates

updates_of-IsGathered :
    (now : ℕ) (signals : List SignalSpec) (values : Values) (latest : Option ℕ) (updates : Values)
    (final : Option ℕ)
    → updates_of signals values latest ≡ ok (updates, final)
    → Reaches now final
    → IsGathered now signals values latest updates
unfolding updates_of
updates_of-IsGathered now [] values latest updates final h reached =
    let same = ok-injective h in
    subst (λ (c : Values × Option ℕ). Reaches now c.1 → IsGathered now [] values latest c.0) same
      (λ before. record { gathered = tt; before = before; past = tt }) reached
updates_of-IsGathered now (signal ∷ signals) values latest updates final h reached =
    let (item, is_item, h₁) = >>=-eq-ok (value_at signal.path values) _ h in
    let ((us, f), rest, h₂) =
      >>=-eq-ok (updates_of signals values (latest_after latest item)) _ h₁ in
    subst
      (λ (c : Values × Option ℕ).
        Reaches now c.1 → IsGathered now (signal ∷ signals) values latest c.0)
      (ok-injective h₂)
      (λ reached'.
        let r =
          updates_of-IsGathered now signals values (latest_after latest item) us f rest reached' in
        let (before, past) = latest_after-IsPast now latest item r.before in
        record {
          gathered = (refl, value_at-lookup signal.path values item is_item, r.gathered);
          before = before;
          past = (past, r.past);
        })
      reached

wait_for-Reaches :
    (D : Databroker) (latest : Option ℕ) (deadline : ℕ) (w w' : D.World)
    → wait_for D latest deadline w ≡ some (ok tt, w')
    → Reaches (D.time w') latest × Waits D w w'
unfolding wait_for
wait_for-Reaches D none deadline w w' h = (tt, subst (Waits D w) (waited-injective h) (no_wait w))
wait_for-Reaches D (some latest) deadline w w' h =
    wait_until-reached D (suc publication_budget) latest deadline w w' h

module _ (D : Databroker) where
  -- From `start`, `connect` gave the client, then there was nothing but sleep until the time had reached
  -- every value, and then the one call of the client led to `s'`.
  pub record IsSent (signals : List SignalSpec) (values : Values) (start s' : KuksaSink D)
      : Type 0 where
    pub client : D.Client
    pub updates : Values
    pub connected : KuksaSink D
    pub connects : connect D (record start { world = D.pass start.world }) ≡ (ok client, connected)
    pub at : D.World
    pub waits : Waits D connected.world at
    pub gathered : Gathered signals values updates
    pub past : All (λ u. IsPast (D.time at) u.1) updates
    pub in_time : D.monotonic (D.pass at) < D.monotonic start.world + publication_budget
    pub sent :
        D.set client updates
          (D.monotonic start.world + publication_budget - D.monotonic (D.pass at))
          (D.pass at)
        ≡ (ok tt, s'.world)
    pub kept : s'.client ≡ some client

  err-ne-ok :
      (e : Exception) (s s' : KuksaSink D)
      → ◌≢◌ {A = Result (Unit {0}) × KuksaSink D} (err e, s) (ok tt, s')
  err-ne-ok e s s' h = cc

  raise_after-ne-ok :
      (e : Exception) (c : Result (Unit {0}) × KuksaSink D) (s' : KuksaSink D)
      → raise_after D {A = Unit {0}} e c ≢ (ok tt, s')
  unfolding raise_after
  raise_after-ne-ok e (ok u, s) s' h = cc
  raise_after-ne-ok e (err f, s) s' h = cc

  close_and_raise-ne-ok :
      (e : Exception) (s s' : KuksaSink D) → close_and_raise D {A = Unit {0}} e s ≢ (ok tt, s')
  unfolding close_and_raise
  close_and_raise-ne-ok e s s' = raise_after-ne-ok e (close D s) s'

  after_set-ok :
      (client : D.Client) (c : Result (Unit {0}) × D.World) (s' : KuksaSink D)
      → after_set D client c ≡ (ok tt, s')
      → (c ≡ (ok tt, s'.world)) × (s'.client ≡ some client)
  unfolding after_set
  after_set-ok client (ok u, w) s' h =
      subst
        (λ (x : KuksaSink D).
          (◌≡◌ {A = Result (Unit {0}) × D.World} (ok u, w) (ok tt, x.world))
          × (x.client ≡ some client))
        (ap (λ (c : Result (Unit {0}) × KuksaSink D). c.1) h) (refl, refl)
  after_set-ok client (err e, w) s' h = absurd (
      close_and_raise-ne-ok (raised_by_publish e) (record { client = some client; world = w }) s' h)

  set_in_time-ok :
      (client : D.Client) (updates : Values) (deadline : ℕ) (w : D.World) (s' : KuksaSink D)
      → set_in_time D client updates deadline w ≡ (ok tt, s')
      → (D.monotonic w < deadline)
        × (D.set client updates (deadline - D.monotonic w) w ≡ (ok tt, s'.world))
        × (s'.client ≡ some client)
  unfolding set_in_time
  set_in_time-ok client updates deadline w s' h = elim (Bool-cases (leb deadline (D.monotonic w))) [
    | inl late ↦ absurd (
        close_and_raise-ne-ok kuksa_unavailable (record { client = some client; world = w }) s'
          (rw (late, set_in_time) at h))
    | inr in_time ↦
        let (sent, kept) = after_set-ok client _ s' (rw (in_time, set_in_time) at h) in
        (ground arith, sent, kept)
  ]

  after_wait-ok :
      (client : D.Client) (updates : Values) (deadline : ℕ) (c : Result (Unit {0}) × D.World)
      (s' : KuksaSink D)
      → after_wait D client updates deadline c ≡ (ok tt, s')
      → (c.0 ≡ ok tt) × (set_in_time D client updates deadline (D.pass c.1) ≡ (ok tt, s'))
  unfolding after_wait
  after_wait-ok client updates deadline (ok u, w) s' h = (refl, h)
  after_wait-ok client updates deadline (err e, w) s' h = absurd (
      close_and_raise-ne-ok (raised_by_publish e) (record { client = some client; world = w }) s' h)

  -- The wait of a publication that got its client.
  record IsWaited (updates : Values) (latest : Option ℕ) (deadline : ℕ) (client : D.Client)
      (s s' : KuksaSink D) : Type 0 where
    at : D.World
    waited : wait_for D latest deadline s.world ≡ some (ok tt, at)
    set : set_in_time D client updates deadline (D.pass at) ≡ (ok tt, s')

  after_connect-ok :
      (updates : Values) (latest : Option ℕ) (deadline : ℕ) (c : Result D.Client × KuksaSink D)
      (s' : KuksaSink D)
      → after_connect D updates latest deadline c ≡ (ok tt, s')
      → (client : D.Client) × (c.0 ≡ ok client) × IsWaited updates latest deadline client c.1 s'
  unfolding after_connect
  after_connect-ok updates latest deadline (err e, s) s' h =
      absurd (close_and_raise-ne-ok (raised_by_publish e) s s' h)
  after_connect-ok updates latest deadline (ok client, s) s' h =
      elim (Option-cases (wait_for D latest deadline s.world)) [
        | inl out ↦ absurd (err-ne-ok other_error s s' (rw (out, after_connect) at h))
        | inr ((r, at), ends) ↦
            let (good, set) =
              after_wait-ok client updates deadline (r, at) s' (rw (ends, after_connect) at h) in
            (
              client,
              refl,
              record { at = at; waited = ends ∙ ap (λ r. some (r, at)) good; set = set },
            )
      ]

  publish-collected :
      (signals : List SignalSpec) (values : Values) (s s' : KuksaSink D)
      → publish D signals values s ≡ (ok tt, s')
      → (c : Values × Option ℕ) × (updates_of signals values none ≡ ok c)
        × (after_connect D c.0 c.1
              (D.monotonic s.world + publication_budget)
              (connect D (record s { world = D.pass s.world }))
            ≡ (ok tt, s'))
  unfolding publish
  publish-collected signals values s s' h = elim (Result-cases (updates_of signals values none)) [
    | inl (c, e) ↦ (c, e, rw (e, publish) at h)
    | inr (x, e) ↦ absurd (err-ne-ok x s s' (rw (e, publish) at h))
  ]

  -- A publication that returned took its client from `connect`, did nothing but sleep until the time
  -- had reached every timestamp of the values, and made one call of the client then, before its
  -- deadline, with the value of every signal in the order of the signals. It keeps the client.
  pub publish-IsSent :
      (signals : List SignalSpec) (values : Values) (s s' : KuksaSink D)
      → publish D signals values s ≡ (ok tt, s')
      → IsSent signals values s s'
  publish-IsSent signals values s s' h =
      let ((updates, latest), collected, h₁) = publish-collected signals values s s' h in
      let deadline = D.monotonic s.world + publication_budget in
      let reached = connect D (record s { world = D.pass s.world }) in
      let (client, got, waiting) = after_connect-ok updates latest deadline reached s' h₁ in
      let (in_time, sent, kept) =
        set_in_time-ok client updates deadline (D.pass waiting.at) s' waiting.set in
      let (passed, waits) =
        wait_for-Reaches D latest deadline reached.1.world waiting.at waiting.waited in
      let all =
        updates_of-IsGathered (D.time waiting.at) signals values none updates latest collected
          passed in
      record {
        client = client;
        updates = updates;
        connected = reached.1;
        connects = ap (λ r. (r, reached.1)) got;
        at = waiting.at;
        waits = waits;
        gathered = all.gathered;
        past = all.past;
        in_time = in_time;
        sent = sent;
        kept = kept;
      }
