-- ===== src/Readiness.antt =====
-- providers/carla-viss-kuksa/src/carla_viss_kuksa_provider/readiness.py: the selected source's
-- identity, and the class `ReadinessTracker`.
mod Tests
pub mod Identity
pub mod Invariant
pub mod Blocked
use aos_vehicle_platform.Prelude.{
  ℕ, leb, String, Bool, true, false, not, ◌&&◌, ◌||◌, Option, none, some,
}
use aos_vehicle_platform.Prelude.{Result, ok, err, value_error, ◌==◌, string_eq, nat_eq, option_eq}
use aos_vehicle_platform.Prelude.{if◌then◌else◌, raise_if, ◌>>=◌, ◌>>◌}
use aos_vehicle_platform.Python.{Json, ℤ, pos, negsuc, Library}
use aos_vehicle_platform.Python.Patterns.{is_canonical_uuid, is_sha256}
use Identity.{SourceIdentity, Source, SourceState, Reason, same_source}
use aos_vehicle_platform.Bridge.Snapshot.{Snapshot}

-- `isinstance(n, int) and not isinstance(n, bool) and n >= 1`
generation_of : Json → Option ℕ
generation_of (Json.int (pos n)) = if leb 1 n then some n else none
generation_of _ = none

-- The constructor, with the tests of `__post_init__` in their order.
unfoldable pub source_identity : String → String → String → Json → String → Result SourceIdentity
unfolding generation_of
source_identity unit_id node_id sha256 generation role = do
  let mismatch = value_error "SOURCE_IDENTITY_MISMATCH"
  raise_if (not (is_canonical_uuid unit_id) || not (is_canonical_uuid node_id)) mismatch
  raise_if (not (is_sha256 sha256)) mismatch
  elim (generation_of generation) [
    | none ↦ err mismatch
    | some n ↦ do
      raise_if (not (role == "SELECTED_PLATFORM_UNIT")) mismatch
      ok (record {
        unit_id = unit_id;
        node_id = node_id;
        client_certificate_sha256 = sha256;
        assignment_generation = n;
        role = role;
      })
  ]

pub record Tracker : Type 0 where
  pub expected_source : Source
  pub manifest_valid : Bool
  pub provider_credential_ready : Bool
  pub kuksa_ready : Bool
  pub viss_mtls_ready : Bool
  pub source_matches : Bool
  pub last_source_timestamp : Option ℕ
  pub source_state : SourceState
  pub reason : Reason

abbrev pub new_tracker : Source → Tracker
new_tracker expected = record {
  expected_source = expected;
  manifest_valid = false;
  provider_credential_ready = false;
  kuksa_ready = false;
  viss_mtls_ready = false;
  source_matches = false;
  last_source_timestamp = none;
  source_state = SourceState.starting;
  reason = Reason.component_absent;
}

-- `self._reason == "NONE"`
unfoldable pub is_no_reason : Reason → Bool
is_no_reason Reason.no_reason = true
is_no_reason (Reason.given text) = text == "NONE"
is_no_reason _ = false

pub data DataReadiness : Type 0 where
  ready not_ready : DataReadiness

-- The process health is always "HEALTHY".
pub record View : Type 0 where
  pub process_health : String
  pub data_readiness : DataReadiness
  pub source_state : SourceState
  pub reason : Reason

unfoldable pub view : Tracker → View
unfolding is_no_reason
view t = record {
  process_health = "HEALTHY";
  data_readiness = if is_no_reason t.reason then ready else not_ready;
  source_state = t.source_state;
  reason = t.reason;
}

unfoldable pub manifest_validated : Tracker → Tracker
manifest_validated t = record t {
  manifest_valid = true;
  source_state = SourceState.starting;
  reason = Reason.telemetry_disconnected;
}

unfoldable pub manifest_invalid : Reason → Tracker → Tracker
manifest_invalid reason t = record t {
  manifest_valid = false;
  source_state = SourceState.contract_mismatch;
  reason = reason;
}

unfoldable pub authenticating : Tracker → Tracker
authenticating t =
    if t.manifest_valid
    then record t {
      viss_mtls_ready = false;
      source_matches = false;
      source_state = SourceState.authenticating;
      reason = Reason.telemetry_disconnected;
    }
    else record t {
      source_state = SourceState.contract_mismatch;
      reason = Reason.contract_digest_mismatch;
    }

unfoldable pub authentication_failed : Tracker → Tracker
authentication_failed t = record t {
  viss_mtls_ready = false;
  source_matches = false;
  source_state = SourceState.authentication_failed;
  reason = Reason.viss_mtls_unavailable;
}

-- `source == self._expected_source`
matches : Source → Option Source → Bool
unfolding same_source
matches expected none = false
matches expected (some source) = same_source source expected

-- The state and the reason that `dependencies` chooses.
dependency_verdict : Bool → Bool → Bool → Bool → Bool → SourceState × Reason
dependency_verdict manifest credential kuksa mtls source =
    if not manifest
    then (SourceState.contract_mismatch, Reason.contract_digest_mismatch)
    else if not credential
    then (SourceState.authentication_failed, Reason.provider_credential_unavailable)
    else if not kuksa
    then (SourceState.disconnected, Reason.kuksa_unavailable)
    else if not mtls
    then (SourceState.authentication_failed, Reason.viss_mtls_unavailable)
    else if not source
    then (SourceState.authentication_failed, Reason.source_identity_mismatch)
    else (SourceState.disconnected, Reason.telemetry_disconnected)

unfoldable pub dependencies : Bool → Bool → Bool → Option Source → Tracker → Tracker
unfolding matches dependency_verdict
dependencies credential kuksa mtls source t =
    let matched = matches t.expected_source source in
    let (state, reason) = dependency_verdict t.manifest_valid credential kuksa mtls matched in
    record t {
      provider_credential_ready = credential;
      kuksa_ready = kuksa;
      viss_mtls_ready = mtls;
      source_matches = matched;
      source_state = state;
      reason = reason;
    }

unfoldable pub dependencies_ready : Tracker → Bool
dependencies_ready t =
    t.manifest_valid && t.provider_credential_ready && t.kuksa_ready && t.viss_mtls_ready
    && t.source_matches

-- `last is not None and timestamp <= last`
is_not_newer : ℕ → Option ℕ → Bool
is_not_newer t none = false
is_not_newer t (some last) = leb t last

missing_path : Tracker → Tracker
missing_path t = record t {
  source_state = SourceState.disconnected;
  reason = Reason.required_path_missing;
}

observe_at : ℕ → Tracker → Bool × Tracker
observe_at timestamp t =
    if is_not_newer timestamp t.last_source_timestamp
    then (false, record t { source_state = SourceState.stale; reason = Reason.telemetry_stale })
    else (
      true,
      record t {
        last_source_timestamp = some timestamp;
        source_state = SourceState.live;
        reason = Reason.no_reason;
      },
    )

unfoldable pub observe : Snapshot → Tracker → Bool × Tracker
unfolding dependencies_ready missing_path observe_at is_not_newer
observe snapshot t =
    if not (dependencies_ready t)
    then (false, t)
    else if not snapshot.complete
    then (false, missing_path t)
    else (elim snapshot.source_timestamp [
      | none ↦ (false, missing_path t)
      | some timestamp ↦ observe_at timestamp t
    ])

unfoldable pub stale : Tracker → Tracker
stale t = record t { source_state = SourceState.stale; reason = Reason.telemetry_stale }

unfoldable pub disconnected : Tracker → Tracker
disconnected t = record t {
  source_state = SourceState.disconnected;
  reason = Reason.telemetry_disconnected;
}
