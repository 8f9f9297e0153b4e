-- ===== src/Readiness/Identity.antt =====
-- readiness.py: the identity of the selected source, and the names of states and reasons.
use aos_vehicle_platform.Prelude.{ℕ, String, Bool, false, ◌&&◌, ◌==◌, string_eq, nat_eq}

-- A `SourceIdentity` that `__post_init__` let pass.
pub record SourceIdentity : Type 0 where
  pub unit_id : String
  pub node_id : String
  pub client_certificate_sha256 : String
  pub assignment_generation : ℕ
  pub role : String

-- `TestOnlySourceIdentity` of runtime.py.
pub record TestOnlySourceIdentity : Type 0 where
  pub unit_id : String
  pub node_id : String
  pub assignment_generation : ℕ
  pub path_set : String

-- The two classes of sources that the tracker is given.
pub data Source : Type 0 where
  selected : SourceIdentity → Source
  test_only : TestOnlySourceIdentity → Source

-- The equality of the dataclass.
unfoldable pub same_identity : SourceIdentity → SourceIdentity → Bool
same_identity a b =
    a.unit_id == b.unit_id
    && a.node_id == b.node_id
    && a.client_certificate_sha256 == b.client_certificate_sha256
    && a.assignment_generation == b.assignment_generation
    && a.role == b.role

-- `==` of two sources: objects of the two classes differ.
unfoldable pub same_source : Source → Source → Bool
unfolding same_identity
same_source (selected a) (selected b) = same_identity a b
same_source (test_only a) (test_only b) =
    a.unit_id == b.unit_id
    && a.node_id == b.node_id
    && a.assignment_generation == b.assignment_generation
    && a.path_set == b.path_set
same_source _ _ = false

pub data SourceState : Type 0 where
  starting contract_mismatch authenticating authentication_failed disconnected stale live :
      SourceState

-- `manifest_invalid` takes a reason from its caller.
pub data Reason : Type 0 where
  component_absent telemetry_disconnected contract_digest_mismatch viss_mtls_unavailable : Reason
  provider_credential_unavailable kuksa_unavailable source_identity_mismatch : Reason
  required_path_missing telemetry_stale no_reason : Reason
  given : String → Reason
