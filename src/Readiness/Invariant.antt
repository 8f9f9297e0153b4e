-- ===== src/Readiness/Invariant.antt =====
-- Over any sequence of calls of `ReadinessTracker` (readiness.py).
use aos_vehicle_platform.Prelude.{
  if◌then◌else◌, ℕ, ◌<◌, ◌≡◌, ◌≢◌, ◌↔◌, Bool, true, false, ◌⊎◌, Option, none, some, List, [], ◌∷◌,
  arith, sym, ◌∙◌, subst, refl, string_eq, nat_eq, inl, inr, Option-cases, if-elim,
}
use aos_vehicle_platform.Prelude.Lists.{Among}
use aos_vehicle_platform.Bridge.Snapshot.{Snapshot}
use aos_vehicle_platform.Readiness.Identity.{Source, SourceState, Reason, same_source}
use aos_vehicle_platform.Readiness.{
  Tracker, ready, view, new_tracker, is_no_reason, manifest_validated, manifest_invalid,
  authenticating, authentication_failed, dependencies, dependencies_ready, observe, stale,
  disconnected,
}

-- One constructor for each method that changes the tracker.
pub data Event : Type 0 where
  on_manifest_validated : Event
  on_manifest_invalid : Reason → Event
  on_authenticating : Event
  on_authentication_failed : Event
  on_dependencies : Bool → Bool → Bool → Option Source → Event
  on_observe : Snapshot → Event
  on_stale : Event
  on_disconnected : Event

unfoldable pub apply : Event → Tracker → Tracker
apply on_manifest_validated t = manifest_validated t
apply (on_manifest_invalid reason) t = manifest_invalid reason t
apply on_authenticating t = authenticating t
apply on_authentication_failed t = authentication_failed t
apply (on_dependencies credential kuksa mtls source) t = dependencies credential kuksa mtls source t
apply (on_observe snapshot) t = (observe snapshot t).1
apply on_stale t = stale t
apply on_disconnected t = disconnected t

unfoldable pub run : List Event → Tracker → Tracker
unfolding apply
run [] t = t
run (e ∷ es) t = run es (apply e t)

-- The caller's reason is not the one that stands for readiness.
abbrev pub IsAdmissible : Event → Type 0
IsAdmissible (on_manifest_invalid reason) = is_no_reason reason ≡ false
IsAdmissible e = Unit

abbrev pub AreAdmissible : List Event → Type 0
AreAdmissible [] = Unit
AreAdmissible (e ∷ es) = IsAdmissible e × AreAdmissible es

-- What readiness rests on.
pub record IsSound (t : Tracker) : Type 0 where
  pub sound :
      is_no_reason t.reason ≡ true
      → (t.manifest_valid ≡ true)
        × (t.provider_credential_ready ≡ true)
        × (t.kuksa_ready ≡ true)
        × (t.viss_mtls_ready ≡ true)
        × (t.source_matches ≡ true)
        × (t.source_state ≡ SourceState.live)
        × (t.last_source_timestamp ≢ none)

apply-IsSound : (e : Event) (t : Tracker) → IsAdmissible e → IsSound t → IsSound (apply e t)
unfolding apply manifest_validated manifest_invalid authenticating authentication_failed
    dependencies observe stale disconnected is_no_reason
apply-IsSound on_manifest_validated t a s = ground arith
apply-IsSound e t a s = ground arith

run-IsSound : (es : List Event) (t : Tracker) → AreAdmissible es → IsSound t → IsSound (run es t)
unfolding run
run-IsSound [] t a s = s
run-IsSound (e ∷ es) t a s = run-IsSound es (apply e t) a.1 (apply-IsSound e t a.0 s)

new_tracker-IsSound : (expected : Source) → IsSound (new_tracker expected)
unfolding is_no_reason
new_tracker-IsSound expected = record { sound = λ h. cc }

is_no_reason_of_ready :
    (t : Tracker) → (view t).data_readiness ≡ ready → is_no_reason t.reason ≡ true
unfolding view
is_no_reason_of_ready t h = ground arith

same_source-eq : (a b : Source) → same_source a b ≡ true → a ≡ b
unfolding same_source
same_source-eq (Source.selected a) (Source.selected b) h = ground arith
same_source-eq (Source.test_only a) (Source.test_only b) h = ground arith
same_source-eq (Source.selected a) (Source.test_only b) h = cc
same_source-eq (Source.test_only a) (Source.selected b) h = cc

-- Every dependency is ready, and the source is the expected one.
abbrev pub all_ready : Source → Event
all_ready expected = on_dependencies true true true (some expected)

-- What the tracker keeps comes from calls that were made.
record IsFounded (Made : Event → Type 0) (expected : Source) (t : Tracker) : Type 0 where
  same_expected : t.expected_source ≡ expected
  told :
      t.provider_credential_ready ≡ true
      → t.kuksa_ready ≡ true
      → t.viss_mtls_ready ≡ true
      → t.source_matches ≡ true
      → Made (all_ready expected)
  observed :
      (u : ℕ)
      → t.last_source_timestamp ≡ some u
      → (s : Snapshot) × Made (on_observe s) × (s.complete ≡ true) × (s.source_timestamp ≡ some u)

module _ (Made : Event → Type 0) (expected : Source) where
  dependencies-told :
      (credential kuksa mtls : Bool) (source : Option Source) (t : Tracker)
      → Made (on_dependencies credential kuksa mtls source)
      → t.expected_source ≡ expected
      → let t' = dependencies credential kuksa mtls source t in
        t'.provider_credential_ready ≡ true
        → t'.kuksa_ready ≡ true
        → t'.viss_mtls_ready ≡ true
        → t'.source_matches ≡ true
        → Made (all_ready expected)
  unfolding dependencies
  dependencies-told true true true (some source) t made is a b c d =
      subst (λ x. Made (all_ready x)) (same_source-eq source t.expected_source d ∙ is) made
  dependencies-told true true true none t made is a b c d = absurd (cc)
  dependencies-told false kuksa mtls source t made is a b c d = absurd (cc)
  dependencies-told true false mtls source t made is a b c d = absurd (cc)
  dependencies-told true true false source t made is a b c d = absurd (cc)

  observe-observed :
      (s : Snapshot) (t : Tracker) (u : ℕ)
      → (observe s t).1.last_source_timestamp ≡ some u
      → (t.last_source_timestamp ≡ some u) ⊎ ((s.complete ≡ true) × (s.source_timestamp ≡ some u))
  unfolding observe
  observe-observed s t u h = ground arith

  observe-kept :
      (s : Snapshot) (t : Tracker)
      → ((observe s t).1.expected_source ≡ t.expected_source)
        × ((observe s t).1.provider_credential_ready ≡ t.provider_credential_ready)
        × ((observe s t).1.kuksa_ready ≡ t.kuksa_ready)
        × ((observe s t).1.viss_mtls_ready ≡ t.viss_mtls_ready)
        × ((observe s t).1.source_matches ≡ t.source_matches)
  unfolding observe
  observe-kept s t = ground arith

  observe-IsFounded :
      (s : Snapshot) (t : Tracker)
      → Made (on_observe s)
      → IsFounded Made expected t
      → IsFounded Made expected (observe s t).1
  observe-IsFounded s t made f =
      let (e, credential, kuksa, mtls, matched) = observe-kept s t in
      record {
        same_expected = e ∙ f.same_expected;
        told =
            λ a b c d. f.told (sym credential ∙ a) (sym kuksa ∙ b) (sym mtls ∙ c) (sym matched ∙ d);
        observed = λ u h. elim (observe-observed s t u h) [
          | inl old ↦ f.observed u old
          | inr (full, stamped) ↦ (s, made, full, stamped)
        ];
      }

  authenticating-IsFounded :
      (t : Tracker) → IsFounded Made expected t → IsFounded Made expected (authenticating t)
  unfolding authenticating
  authenticating-IsFounded t f =
      if-elim (IsFounded Made expected) t.manifest_valid
        (record {
          same_expected = f.same_expected;
          told = λ a b c d. absurd (cc);
          observed = f.observed;
        })
        (record { same_expected = f.same_expected; told = f.told; observed = f.observed })

  apply-IsFounded :
      (e : Event) (t : Tracker)
      → Made e
      → IsFounded Made expected t
      → IsFounded Made expected (apply e t)
  unfolding apply manifest_validated manifest_invalid authentication_failed stale disconnected
      dependencies
  apply-IsFounded (on_observe s) t made f = observe-IsFounded s t made f
  apply-IsFounded (on_dependencies c k m source) t made f = record {
    same_expected = f.same_expected;
    told = dependencies-told c k m source t made f.same_expected;
    observed = f.observed;
  }
  apply-IsFounded on_authenticating t made f = authenticating-IsFounded t f
  apply-IsFounded on_authentication_failed t made f = record {
    same_expected = f.same_expected;
    told = λ a b c d. absurd (cc);
    observed = f.observed;
  }
  apply-IsFounded e t made f = record {
    same_expected = f.same_expected;
    told = f.told;
    observed = f.observed;
  }

  run-IsFounded :
      (es : List Event) (t : Tracker)
      → ((e : Event) → Among e es → Made e)
      → IsFounded Made expected t
      → IsFounded Made expected (run es t)
  unfolding run
  run-IsFounded [] t made f = f
  run-IsFounded (e ∷ es) t made f =
      run-IsFounded es (apply e t) (λ x h. made x (inr h))
        (apply-IsFounded e t (made e (inl refl)) f)

-- A new tracker was told nothing.
new_tracker-IsFounded :
    (Made : Event → Type 0) (expected : Source) → IsFounded Made expected (new_tracker expected)
new_tracker-IsFounded Made expected = record {
  same_expected = refl;
  told = λ a b c d. absurd (cc);
  observed = λ u h. absurd (cc);
}

-- A timestamp that is there comes from a complete frame among the calls.
observed-Among :
    (es : List Event) (expected : Source) (t : Tracker)
    → IsFounded (λ e. Among e es) expected t
    → t.last_source_timestamp ≢ none
    → (s : Snapshot) × Among (on_observe s) es
      × (s.complete ≡ true)
      × (s.source_timestamp ≡ t.last_source_timestamp)
observed-Among es expected t f there = elim (Option-cases t.last_source_timestamp) [
  | inl absent ↦ absurd (there absent)
  | inr (u, e) ↦ let (s, made, full, stamped) = f.observed u e in (s, made, full, stamped ∙ sym e)
]

-- After any calls on a new tracker, none of which passes "NONE" to `manifest_invalid`: if the view
-- says that the data are ready, then the manifest is valid, the credential, KUKSA, VISS and the
-- source are marked ready, and the state is LIVE. Among the calls is then one of `dependencies` that
-- said that all are ready and gave the expected source itself, and one of `observe` with a complete
-- frame, whose source timestamp is the last one of the tracker.
pub ready_is_sound :
    (expected : Source) (es : List Event)
    → AreAdmissible es
    → (view (run es (new_tracker expected))).data_readiness ≡ ready
    → let t = run es (new_tracker expected) in
      (t.manifest_valid ≡ true)
      × (t.provider_credential_ready ≡ true)
      × (t.kuksa_ready ≡ true)
      × (t.viss_mtls_ready ≡ true)
      × (t.source_matches ≡ true)
      × (t.source_state ≡ SourceState.live)
      × Among (all_ready expected) es
      × ((s : Snapshot) × Among (on_observe s) es
          × (s.complete ≡ true)
          × (s.source_timestamp ≡ t.last_source_timestamp))
ready_is_sound expected es a h =
    let t = run es (new_tracker expected) in
    let (valid, credential, kuksa, mtls, matched, live, there) =
      (run-IsSound es (new_tracker expected) a (new_tracker-IsSound expected)).sound
        (is_no_reason_of_ready t h) in
    let f =
      run-IsFounded (λ e. Among e es) expected es (new_tracker expected) (λ e made. made)
        (new_tracker-IsFounded (λ e. Among e es) expected) in
    (
      valid,
      credential,
      kuksa,
      mtls,
      matched,
      live,
      f.told credential kuksa mtls matched,
      observed-Among es expected t f there,
    )

-- `observe` returns true exactly for a complete frame, with a timestamp above the last one, while
-- all dependencies are ready; then, and only then, it takes over the timestamp.
pub observe_iff :
    (s : Snapshot) (t : Tracker)
    → (((observe s t).0 ≡ true) ↔ (
        (dependencies_ready t ≡ true)
        × (s.complete ≡ true)
        × ((u : ℕ) × (s.source_timestamp ≡ some u)
            × ((t.last_source_timestamp ≡ none)
                ⊎ ((last : ℕ) × (t.last_source_timestamp ≡ some last) × (last < u))))))
      × ((observe s t).1.last_source_timestamp
          ≡ (if (observe s t).0 then s.source_timestamp else t.last_source_timestamp))
unfolding observe
observe_iff s t = ground arith
