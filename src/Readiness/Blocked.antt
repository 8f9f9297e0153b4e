-- ===== src/Readiness/Blocked.antt =====
-- `ReadinessTracker` (readiness.py): an invalid manifest blocks readiness, and the timestamp of the
-- last frame only rises.
use aos_vehicle_platform.Prelude.{◌≡◌, ◌≢◌, refl, false, List, [], ◌∷◌, arith}
use aos_vehicle_platform.Bridge.State.Monotone.{Rises, Rises-refl, Rises-trans}
use aos_vehicle_platform.Readiness.Identity.{Reason}
use aos_vehicle_platform.Readiness.{
  Tracker, ready, view, is_no_reason, manifest_validated, manifest_invalid, authenticating,
  authentication_failed, dependencies, observe, stale, disconnected,
}
use aos_vehicle_platform.Readiness.Invariant.{
  Event, apply, run, AreAdmissible, IsAdmissible, on_manifest_validated,
}

-- No call of `manifest_validated`.
abbrev pub NotValidated : List Event → Type 0
NotValidated [] = Unit
NotValidated (e ∷ es) = (e ≢ on_manifest_validated) × NotValidated es

abbrev IsBlocked : Tracker → Type 0
IsBlocked t = (t.manifest_valid ≡ false) × (is_no_reason t.reason ≡ false)

apply-IsBlocked :
    (e : Event) (t : Tracker)
    → IsAdmissible e
    → e ≢ on_manifest_validated
    → IsBlocked t
    → IsBlocked (apply e t)
unfolding apply manifest_validated manifest_invalid authenticating authentication_failed
    dependencies observe stale disconnected is_no_reason
apply-IsBlocked on_manifest_validated t a n b = absurd (n refl)
apply-IsBlocked e t a n b = ground arith

run-IsBlocked :
    (es : List Event) (t : Tracker)
    → AreAdmissible es
    → NotValidated es
    → IsBlocked t
    → IsBlocked (run es t)
unfolding run
run-IsBlocked [] t a n b = b
run-IsBlocked (e ∷ es) t a n b =
    run-IsBlocked es (apply e t) a.1 n.1 (apply-IsBlocked e t a.0 n.0 b)

-- Once `manifest_invalid` was called, with a reason other than "NONE", no further calls make the
-- data ready, as long as `manifest_validated` is not called and no later call passes "NONE".
pub manifest_invalid_blocks :
    (reason : Reason) (t : Tracker) (es : List Event)
    → is_no_reason reason ≡ false
    → AreAdmissible es
    → NotValidated es
    → (view (run es (manifest_invalid reason t))).data_readiness ≢ ready
unfolding view manifest_invalid
manifest_invalid_blocks reason t es h a n e =
    let (_, blocked) = run-IsBlocked es (manifest_invalid reason t) a n (refl, h) in ground arith

apply-Rises :
    (e : Event) (t : Tracker) → Rises t.last_source_timestamp (apply e t).last_source_timestamp
unfolding apply manifest_validated manifest_invalid authenticating authentication_failed
    dependencies observe stale disconnected
apply-Rises on_manifest_validated t = Rises-refl t.last_source_timestamp
apply-Rises e t = ground (arith, Rises-refl t.last_source_timestamp)

-- Over any calls of the tracker the last source timestamp never falls, and is never forgotten.
pub run-Rises :
    (es : List Event) (t : Tracker) → Rises t.last_source_timestamp (run es t).last_source_timestamp
unfolding run
run-Rises [] t = Rises-refl t.last_source_timestamp
run-Rises (e ∷ es) t =
    Rises-trans t.last_source_timestamp (apply e t).last_source_timestamp _ (apply-Rises e t)
      (run-Rises es (apply e t))
