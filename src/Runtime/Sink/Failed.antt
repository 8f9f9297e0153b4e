-- ===== src/Runtime/Sink/Failed.antt =====
-- What a failed `KuksaSink.publish` raises, and what it leaves.
use aos_vehicle_platform.Prelude.{
  ℕ, ◌+◌, ◌-◌, leb, String, ◌≡◌, ◌≢◌, refl, sym, ap, ◌∙◌, subst, inl, inr, ◌⊎◌, Option, none, some,
  List, [], ◌∷◌, arith, Result, ok, err, Exception, key_error, kuksa_unavailable,
  provider_credential_unavailable, Option-cases, Result-cases, string_eq, if-elim,
}
use aos_vehicle_platform.Prelude.Dict.{lookup}
use aos_vehicle_platform.Bridge.Signal.{SignalSpec}
use aos_vehicle_platform.Bridge.Snapshot.{Values}
use aos_vehicle_platform.Runtime.Sink.{
  Databroker, KuksaSink, publication_budget, value_at, updates_of, latest_after, wait_for, connect,
  disconnected, close, raise_after, close_and_raise, raised_by_publish, after_set, set_in_time,
  after_wait, after_connect, publish,
}
use aos_vehicle_platform.Runtime.Sink.Waiting.{IsClock, Ends, wait_for_terminates}

raised_by_publish-cases :
    (e : Exception)
    → (raised_by_publish e ≡ kuksa_unavailable)
      ⊎ (raised_by_publish e ≡ provider_credential_unavailable)
unfolding raised_by_publish
raised_by_publish-cases provider_credential_unavailable = inr refl
raised_by_publish-cases _ = inl refl

value_at-KeyError :
    (path : String) (values : Values) (e : Exception)
    → value_at path values ≡ err e
    → (lookup path values ≡ none) × (e ≡ key_error path)
unfolding value_at
value_at-KeyError path values e h = ground (arith)

raised-injective {ℓ} : {A : Type ℓ} {e f : Exception} → ◌≡◌ {A = Result A} (err e) (err f) → e ≡ f
raised-injective h = cc

done-ne-raised {ℓ} : {A : Type ℓ} {a : A} {e : Exception} → ok a ≢ err e
done-ne-raised h = cc

-- The only error of the loop over the signals.
updates_of-KeyError :
    (signals : List SignalSpec) (values : Values) (latest : Option ℕ) (e : Exception)
    → updates_of signals values latest ≡ err e
    → (path : String) × (lookup path values ≡ none) × (e ≡ key_error path)
unfolding updates_of
updates_of-KeyError [] values latest e h = absurd (cc)
updates_of-KeyError (signal ∷ signals) values latest e h =
    elim (Result-cases (value_at signal.path values)) [
      | inr (x, missing) ↦
          let lost = value_at-KeyError signal.path values x missing in
          (signal.path, lost.0, sym (raised-injective (rw (missing, updates_of) at h)) ∙ lost.1)
      | inl (item, found) ↦
          elim (Result-cases (updates_of signals values (latest_after latest item))) [
            | inr (x, failed) ↦
                updates_of-KeyError signals values (latest_after latest item) e
                  (failed ∙ (rw (found, failed, updates_of) at h))
            | inl (c, done) ↦ absurd (done-ne-raised (rw (found, done, updates_of) at h))
          ]
    ]

module _ (D : Databroker) where
  -- The client is forgotten, and the exception is one that `run` tells apart.
  pub record IsForgotten (e : Exception) (s' : KuksaSink D) : Type 0 where
    pub forgotten : s'.client ≡ none
    pub raised : (e ≡ kuksa_unavailable) ⊎ (e ≡ provider_credential_unavailable)

  -- The client's own `disconnect` raised the exception, and the client is kept.
  pub record IsStuck (e : Exception) (s' : KuksaSink D) : Type 0 where
    pub client : D.Client
    pub at : D.World
    pub refused : D.disconnect client at ≡ (err e, s'.world)
    pub kept : s'.client ≡ some client

  abbrev pub IsFailed : Exception → KuksaSink D → Type 0
  IsFailed e s' = IsForgotten e s' ⊎ IsStuck e s'

  -- A call that failed, failed like this.
  abbrev FailsWell : Result (Unit {0}) × KuksaSink D → Type 0
  FailsWell c = (e : Exception) (s' : KuksaSink D) → c ≡ (err e, s') → IsFailed e s'

  failed-injective :
      {e f : Exception} {s s' : KuksaSink D}
      → ◌≡◌ {A = Result (Unit {0}) × KuksaSink D} (err e, s) (err f, s')
      → ◌≡◌ {A = Exception × KuksaSink D} (e, s) (f, s')
  failed-injective h = cc

module _ (D : Databroker) where
  disconnected-FailsWell :
      (error : Exception) (client : D.Client) (w : D.World) (c : Result (Unit {0}) × D.World)
      → (error ≡ kuksa_unavailable) ⊎ (error ≡ provider_credential_unavailable)
      → D.disconnect client w ≡ c
      → FailsWell D (raise_after D error (disconnected D client c))
  unfolding disconnected raise_after
  disconnected-FailsWell error client w (ok u, w') raised is e s' h =
      subst (λ (c : Exception × KuksaSink D). IsFailed D c.0 c.1) (failed-injective D h)
        (inl (record { forgotten = refl; raised = raised }))
  disconnected-FailsWell error client w (err x, w') raised is e s' h =
      subst (λ (c : Exception × KuksaSink D). IsFailed D c.0 c.1) (failed-injective D h)
        (inr (record { client = client; at = w; refused = is; kept = refl }))

  close_and_raise-FailsWell :
      (error : Exception) (s : KuksaSink D)
      → (error ≡ kuksa_unavailable) ⊎ (error ≡ provider_credential_unavailable)
      → FailsWell D (close_and_raise D error s)
  unfolding close_and_raise close raise_after
  close_and_raise-FailsWell error s raised = elim (Option-cases s.client) [
    | inl absent ↦
        rw (absent, close_and_raise, close)
          (λ e s' h.
            subst (λ (c : Exception × KuksaSink D). IsFailed D c.0 c.1) (failed-injective D h)
              (inl (record { forgotten = absent; raised = raised })))
    | inr (client, present) ↦
        rw (present, close_and_raise, close)
          (disconnected-FailsWell error client s.world (D.disconnect client s.world) raised refl)
  ]

  after_set-FailsWell :
      (client : D.Client) (c : Result (Unit {0}) × D.World) → FailsWell D (after_set D client c)
  unfolding after_set
  after_set-FailsWell client (ok u, w) e s' h = absurd (cc)
  after_set-FailsWell client (err x, w) e s' h =
      close_and_raise-FailsWell (raised_by_publish x) (record { client = some client; world = w })
        (raised_by_publish-cases x) e s' h

  set_in_time-FailsWell :
      (client : D.Client) (updates : Values) (deadline : ℕ) (w : D.World)
      → FailsWell D (set_in_time D client updates deadline w)
  unfolding set_in_time
  set_in_time-FailsWell client updates deadline w =
      if-elim (FailsWell D) (leb deadline (D.monotonic w))
        (close_and_raise-FailsWell kuksa_unavailable (record { client = some client; world = w })
          (inl refl))
        (after_set-FailsWell client (D.set client updates (deadline - D.monotonic w) w))

  after_wait-FailsWell :
      (client : D.Client) (updates : Values) (deadline : ℕ) (c : Result (Unit {0}) × D.World)
      → FailsWell D (after_wait D client updates deadline c)
  unfolding after_wait
  after_wait-FailsWell client updates deadline (ok u, w) =
      set_in_time-FailsWell client updates deadline (D.pass w)
  after_wait-FailsWell client updates deadline (err x, w) =
      close_and_raise-FailsWell (raised_by_publish x) (record { client = some client; world = w })
        (raised_by_publish-cases x)

  after_connect-FailsWell :
      (updates : Values) (latest : Option ℕ) (deadline : ℕ) (c : Result D.Client × KuksaSink D)
      → ((client : D.Client) → c.0 ≡ ok client → Ends (wait_for D latest deadline c.1.world))
      → FailsWell D (after_connect D updates latest deadline c)
  unfolding after_connect
  after_connect-FailsWell updates latest deadline (err x, s) ends =
      close_and_raise-FailsWell (raised_by_publish x) s (raised_by_publish-cases x)
  after_connect-FailsWell updates latest deadline (ok client, s) ends =
      let (out, e) = ends client refl in
      rw (e, after_connect) (after_wait-FailsWell client updates deadline out)

  -- Over clocks that do not go back: a publication that raises did nothing at all, for want of a
  -- signal's value, or has forgotten its client and raises one of the two exceptions that `run` tells
  -- apart, or keeps its client and raises what the client's own `disconnect` raised. So the fuel of its
  -- wait is never used up.
  pub publish-IsFailed :
      (C : IsClock D) (signals : List SignalSpec) (values : Values) (e : Exception)
      (s s' : KuksaSink D)
      → publish D signals values s ≡ (err e, s')
      → ((path : String) × (lookup path values ≡ none) × (e ≡ key_error path) × (s' ≡ s))
        ⊎ IsFailed D e s'
  unfolding publish
  publish-IsFailed C signals values e s s' h =
      elim (Result-cases (updates_of signals values none)) [
        | inr (x, failed) ↦
            let same = failed-injective D (rw (failed, publish) at h) in
            let (path, missing, key) = updates_of-KeyError signals values none x failed in
            inl (
              path,
              missing,
              sym (ap (λ (c : Exception × KuksaSink D). c.0) same) ∙ key,
              sym (ap (λ (c : Exception × KuksaSink D). c.1) same),
            )
        | inl ((updates, latest), done) ↦ inr (
            after_connect-FailsWell updates latest (D.monotonic s.world + publication_budget)
              (connect D (record s { world = D.pass s.world }))
              (λ client got.
                wait_for_terminates D C s (connect D (record s { world = D.pass s.world })).1 client
                  latest (ap (λ r. (r, (connect D (record s { world = D.pass s.world })).1)) got))
              e s' (rw (done, publish) at h))
      ]
