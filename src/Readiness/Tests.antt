-- ===== src/Readiness/Tests.antt =====
-- The theorems on readiness.py at a concrete source and trace, and runs of the code.
use aos_vehicle_platform.Prelude.{
  if◌then◌else◌, ℕ, ◌<◌, String, ◌≡◌, ◌≢◌, ◌↔◌, refl, true, false, ◌⊎◌, none, some, List, [], ◌∷◌,
  ok, string_eq, nat_eq,
}
use aos_vehicle_platform.Prelude.Lists.{Among}
use aos_vehicle_platform.Python.{Json, pos}
use aos_vehicle_platform.Python.Patterns.{is_canonical_uuid, is_sha256}
use aos_vehicle_platform.Bridge.Snapshot.{Snapshot}
use aos_vehicle_platform.Bridge.State.Monotone.{Rises}
use aos_vehicle_platform.Readiness.Identity.{
  SourceIdentity, Source, selected, SourceState, Reason, same_source,
}
use aos_vehicle_platform.Readiness.{
  Tracker, ready, view, new_tracker, source_identity, is_no_reason, dependencies_ready,
  manifest_validated, authenticating, manifest_invalid, dependencies, observe,
}
use aos_vehicle_platform.Readiness.Invariant.{
  Event, run, on_manifest_validated, on_authenticating, on_dependencies, on_observe, ready_is_sound,
  all_ready, observe_iff,
}
use aos_vehicle_platform.Readiness.Blocked.{manifest_invalid_blocks, run-Rises}

abbrev unit : String
unit = "11111111-2222-3333-4444-555555555555"

abbrev digest : String
digest = "0123456789abcdef0123456789abcdef0123456789abcdef0123456789abcdef"

abbrev identity : SourceIdentity
identity = record {
  unit_id = unit;
  node_id = unit;
  client_certificate_sha256 = digest;
  assignment_generation = 3;
  role = "SELECTED_PLATFORM_UNIT";
}

identity_passes :
    source_identity unit unit digest (Json.int (pos 3)) "SELECTED_PLATFORM_UNIT" ≡ ok identity
unfolding source_identity is_canonical_uuid is_sha256 string_eq nat_eq
identity_passes = refl

abbrev source : Source
source = selected identity

abbrev frame_at : ℕ → Snapshot
frame_at t = record {
  values = [];
  invalid_paths = [];
  complete = true;
  source_timestamp = some t;
  repeated = false;
}

abbrev live_trace : List Event
live_trace =
    on_manifest_validated
    ∷ on_authenticating
    ∷ on_dependencies true true true (some source)
    ∷ on_observe (frame_at 5)
    ∷ []

abbrev live : Tracker
live = run live_trace (new_tracker source)

is_live : (view live).data_readiness ≡ ready
unfolding view run manifest_validated authenticating dependencies observe same_source string_eq
    nat_eq
is_live = refl

ready_is_sound_example :
    (live.manifest_valid ≡ true)
    × (live.provider_credential_ready ≡ true)
    × (live.kuksa_ready ≡ true)
    × (live.viss_mtls_ready ≡ true)
    × (live.source_matches ≡ true)
    × (live.source_state ≡ SourceState.live)
    × Among (all_ready source) live_trace
    × ((s : Snapshot) × Among (on_observe s) live_trace
        × (s.complete ≡ true)
        × (s.source_timestamp ≡ live.last_source_timestamp))
ready_is_sound_example = ready_is_sound source live_trace (tt, (tt, (tt, (tt, tt)))) is_live

observe_iff_example :
    (((observe (frame_at 6) live).0 ≡ true) ↔ (
      (dependencies_ready live ≡ true)
      × (true ≡ true)
      × ((u : ℕ) × (some 6 ≡ some u)
          × ((live.last_source_timestamp ≡ none)
              ⊎ ((last : ℕ) × (live.last_source_timestamp ≡ some last) × (last < u))))))
    × ((observe (frame_at 6) live).1.last_source_timestamp
        ≡ (if (observe (frame_at 6) live).0 then some 6 else live.last_source_timestamp))
observe_iff_example = observe_iff (frame_at 6) live

abbrev after_mismatch : List Event
after_mismatch = on_dependencies true true true (some source) ∷ on_observe (frame_at 9) ∷ []

manifest_invalid_blocks_example :
    (view
      (run after_mismatch (manifest_invalid Reason.contract_digest_mismatch live))).data_readiness
    ≢ ready
unfolding is_no_reason
manifest_invalid_blocks_example =
    manifest_invalid_blocks Reason.contract_digest_mismatch live after_mismatch refl (tt, (tt, tt))
      (λ e. cc, (λ e. cc, tt))

run-Rises_example : Rises live.last_source_timestamp (run after_mismatch live).last_source_timestamp
run-Rises_example = run-Rises after_mismatch live
