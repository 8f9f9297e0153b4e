-- ===== src/Fota/Artifact/Candidate.antt =====
-- `validate` of packaging/fota/vdp_artifact.py.
pub mod Accepted
pub mod Recorded
pub mod Bound
use aos_vehicle_platform.Prelude.{
  ℕ, String, ◌<>◌, Bool, true, false, not, ◌&&◌, ◌||◌, Option, none, some, List, [], ◌∷◌, ◌++◌,
  if◌then◌else◌, ◌==◌, nat_eq, string_eq, Result, ok, err, type_error, artifact_error, raise_if,
  ◌>>=◌, ◌>>◌,
}
use aos_vehicle_platform.Prelude.Lists.{length}
use aos_vehicle_platform.Prelude.Dict.{Dict}
use aos_vehicle_platform.Python.{
  Json, Items, Fields, pos, get, get_or_null, items, is_subset, same_set, is_str,
}
use aos_vehicle_platform.Python.Equal.{json_equals}
use aos_vehicle_platform.Manifest.{component_type}
use aos_vehicle_platform.Fota.Bytes.{Bytes, same_bytes}
use aos_vehicle_platform.Fota.Documents.{
  as_object, object, array, content_of, has_file, file_names, names_under, differs,
}
use aos_vehicle_platform.Fota.Family.{check_releases, advisory_module}
use aos_vehicle_platform.Fota.Tar.{Entry, Tools, member_map, member_map_bytes}
use aos_vehicle_platform.Fota.Prebuild.Compose.{Repository}
use aos_vehicle_platform.Fota.Disk.{Child, plain_child}
use aos_vehicle_platform.Fota.Artifact.{
  require_version, prepared_filename, layer_name, layer_path, validate_manifest_strings,
  canonical_json, canonical_document,
}
use aos_vehicle_platform.Fota.Artifact.Family.{len, item}
use aos_vehicle_platform.Fota.Artifact.Metadata.{validate_archive_metadata}
use aos_vehicle_platform.Fota.Artifact.Producer.{
  product_source_revision, product_source_tree, factory_version, factory_raw_sha256,
  envelope_configuration,
}
use aos_vehicle_platform.Fota.Artifact.Layer.{
  Members, dependency_lock_path, candidate_file, check_layer_layout, bytes_of, envelope_bytes,
  check_accepted, check_component, check_provenance, lock_records, check_sbom,
}
use aos_vehicle_platform.Fota.Artifact.Document.{producer_manifest, candidate_summary}

-- A file of the release in the repository.
abbrev pub release_path : String → String → String
release_path version name = "providers/carla-viss-kuksa/releases/" <> version <> "/" <> name

-- What the candidate's directory holds, with its metadata read.
pub record Candidate : Type 0 where
  pub artifact : Bytes
  pub layer : Bytes
  pub manifest : Fields
  pub summary : Fields

-- What the layer says of itself.
pub record Contents : Type 0 where
  pub capability : Json
  pub inputs : Json
  pub provenance_sha256 : String
  pub sbom_sha256 : String

module _ (t : Tools) where
  unfoldable pub read_candidate :
      Dict String Child → String → String → Option Bytes → Result Candidate
  read_candidate children version manifest_name manifest_file = do
    artifact_name ← prepared_filename version
    name ← layer_name version
    artifact ← candidate_file artifact_name (plain_child artifact_name children)
    layer ← candidate_file name (plain_child name children)
    summary_raw ← candidate_file "candidate.json" (plain_child "candidate.json" children)
    manifest_raw ← candidate_file manifest_name manifest_file
    manifest ← canonical_document t manifest_raw
    validate_manifest_strings t (Json.obj manifest)
    summary ← canonical_document t summary_raw
    ok (record { artifact = artifact; layer = layer; manifest = manifest; summary = summary })

  -- The bytes of `config.yaml`, once the envelope is checked.
  unfoldable pub check_envelope : Bytes → Bytes → String → Result Bytes
  check_envelope artifact layer version = do
    content ← t.gunzip artifact >>= envelope_bytes
    envelope ← member_map_bytes t content
    path ← layer_path version
    raise_if (not (same_set (file_names envelope) ("config.yaml" ∷ path ∷ [])))
        (artifact_error "unsigned envelope layout mismatch")
    validate_archive_metadata t false envelope
    config ← bytes_of "config.yaml" envelope
    expected ← envelope_configuration version >>= canonical_json t
    raise_if (not (same_bytes config expected))
        (artifact_error "unsigned envelope configuration mismatch")
    inner ← bytes_of path envelope
    raise_if (not (same_bytes inner layer))
        (artifact_error "unsigned envelope layer differs from candidate layer")
    ok config

  check_lock_record : Fields → Bytes → Result (Unit {0})
  check_lock_record provenance lock = do
    records ← lock_records (get "buildInputs" provenance)
    raise_if
        (not (
          json_equals (array records) (
            array (
              object (
                ("byteLength", Json.int (pos (length lock)))
                ∷ ("path", Json.str dependency_lock_path)
                ∷ ("sha256", Json.str (t.sha256 lock))
                ∷ [])
              ∷ []))))
        (artifact_error "embedded ARM64 dependency lock provenance is incomplete")

  -- The component, against the accepted documents of its release; the capability manifest.
  unfoldable pub check_product : Repository → Members → String → Result Json
  check_product repo members version = do
    component ← bytes_of "component.json" members >>= t.loads
    capability ← bytes_of "config/capability-manifest.json" members >>= t.loads
    provider ← bytes_of "config/provider.json" members >>= t.loads
    accepted_capability ← repo (release_path version "capability-manifest.json")
    accepted_provider ← repo (release_path version "provider.json")
    check_accepted accepted_capability "config/capability-manifest.json" members
        "accepted capability manifest bytes changed"
    check_accepted accepted_provider "config/provider.json" members
        "accepted provider profile bytes changed"
    check_component component provider capability (t.sha256 accepted_capability) version
    ok capability

  -- The provenance, the dependency lock and the packages, after the component.
  unfoldable pub check_origin : Repository → Members → String → Json → Result Contents
  unfolding check_lock_record
  check_origin repo members version capability = do
    provenance_raw ← bytes_of "provenance/provenance.json" members
    provenance_value ← t.loads provenance_raw
    sbom_raw ← bytes_of "sbom/spdx.json" members
    sbom_value ← t.loads sbom_raw
    provenance ← as_object provenance_value
    check_provenance provenance version
    lock ← repo "packaging/fota/requirements-arm64.txt"
    check_accepted lock "dependency-lock/requirements-arm64.txt" members
        "embedded ARM64 dependency lock differs from accepted bytes"
    check_lock_record provenance lock
    sbom ← as_object sbom_value
    check_sbom sbom
    inputs ← item "buildInputs" provenance_value
    ok (record {
      capability = capability;
      inputs = inputs;
      provenance_sha256 = t.sha256 provenance_raw;
      sbom_sha256 = t.sha256 sbom_raw;
    })

  -- The checks of the layer's members and documents.
  unfoldable pub check_contents : Repository → Members → String → Result Contents
  check_contents repo members version =
      check_product repo members version >>= check_origin repo members version

  unfoldable pub check_layer : Repository → Bytes → String → Result Contents
  check_layer repo layer version = do
    members ← member_map t layer
    validate_archive_metadata t true members
    check_layer_layout members version
    check_contents repo members version

  -- The manifest and the summary against what they have to be.
  unfoldable pub check_manifest : Repository → Candidate → Contents → Bytes → String → Result Json
  check_manifest repo candidate contents config version = do
    let manifest = Json.obj candidate.manifest
    expected ←
        producer_manifest t version candidate.artifact candidate.layer contents.inputs
          contents.capability contents.provenance_sha256 contents.sbom_sha256 repo
    raise_if (not (json_equals manifest expected))
        (artifact_error "producer manifest does not bind the exact candidate")
    manifest_bytes ← canonical_json t manifest
    expected_summary ← candidate_summary t version manifest config manifest_bytes
    raise_if (not (json_equals (Json.obj candidate.summary) expected_summary))
        (artifact_error "candidate summary mismatch")
    ok manifest

  -- `validate`: `none` for a root that is no directory, or a symbolic link.
  unfoldable pub validate :
      Repository → Option (Dict String Child) → String → String → Option Bytes → Result Json
  validate repo none version manifest_name manifest_file =
      require_version version >> err (artifact_error "VDP candidate root is missing or unsafe")
  validate repo (some children) version manifest_name manifest_file = do
    require_version version
    candidate ← read_candidate children version manifest_name manifest_file
    config ← check_envelope candidate.artifact candidate.layer version
    contents ← check_layer repo candidate.layer version
    check_manifest repo candidate contents config version
