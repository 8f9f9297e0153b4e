-- ===== src/Fota/Artifact.antt =====
-- packaging/fota/vdp_artifact.py: the names of a candidate's files, and the canonical form of its
-- metadata. The children have the candidate's parts.
mod Tests
pub mod Family
pub mod Metadata
pub mod Producer
pub mod Document
pub mod Layer
pub mod Candidate
pub mod Stage
pub mod Wheels
pub mod Records
pub mod Gate
use aos_vehicle_platform.Prelude.{
  ℕ, String, ◌<>◌, Bool, true, false, not, ◌&&◌, ◌||◌, List, [], ◌∷◌, ◌==◌, string_eq, contains,
  if◌then◌else◌, Result, ok, err, artifact_error, raise_if, ◌>>=◌, ◌>>◌,
}
use aos_vehicle_platform.Prelude.{ltb, leb}
use aos_vehicle_platform.Prelude.Text.{codes}
use aos_vehicle_platform.Python.{Json, Items, Fields}
use aos_vehicle_platform.Fota.Bytes.{Bytes, ascii, starts_with, occurs, same_bytes}
use aos_vehicle_platform.Fota.Family.{versions}
use aos_vehicle_platform.Fota.Tar.{Tools}

abbrev pub component_media_type : String
component_media_type = "application/vnd.aos.image.component.full.v1+gzip"

abbrev pub legacy_media_type : String
legacy_media_type = "application/vnd.aos.vehicle-data-provider.layer.v1.tar"

abbrev pub deployment_bundle_versions : List String
deployment_bundle_versions = "1.0.14" ∷ "1.0.15" ∷ []

-- `require_version`
unfoldable pub require_version : String → Result (Unit {0})
require_version version =
    raise_if (not (contains versions version)) (artifact_error "unsupported VDP semantic version")

unfoldable pub candidate_id : String → Result String
candidate_id version = require_version version >> ok ("aosedge-vdp-component-" <> version)

unfoldable pub prepared_filename : String → Result String
prepared_filename version = do id ← candidate_id version; ok (id <> "-linux-arm64.unsigned.tar.gz")

unfoldable pub manifest_filename : String → Result String
manifest_filename version = do id ← candidate_id version; ok (id <> ".manifest.json")

unfoldable pub layer_name : String → Result String
layer_name version = do
  require_version version
  let suffix = if contains deployment_bundle_versions version then "tar.gz" else "tar"
  ok ("vdp-" <> version <> "-arm64." <> suffix)

unfoldable pub layer_media_type : String → Result String
layer_media_type version = do
  require_version version
  ok (
      if contains deployment_bundle_versions version
      then component_media_type
      else legacy_media_type)

unfoldable pub layer_path : String → Result String
layer_path version = do name ← layer_name version; ok ("vehicle-data-platform/" <> name)

-- `_validate_canonical_value`: the keys of a JSON object are text.
unfoldable mutual
  pub validate_canonical_value : Json → Result (Unit {0})
  validate_canonical_value (Json.float d) =
      err (artifact_error "canonical producer metadata must not contain floats")
  validate_canonical_value (Json.obj fs) = validate_canonical_fields fs
  validate_canonical_value (Json.arr vs) = validate_canonical_items vs
  validate_canonical_value _ = ok tt

  pub validate_canonical_items : Items → Result (Unit {0})
  validate_canonical_items Items.nil = ok tt
  validate_canonical_items (Items.cons v vs) =
      validate_canonical_value v >> validate_canonical_items vs

  pub validate_canonical_fields : Fields → Result (Unit {0})
  validate_canonical_fields Fields.end = ok tt
  validate_canonical_fields (Fields.field k v fs) =
      validate_canonical_value v >> validate_canonical_fields fs

is_letter : ℕ → Bool
is_letter c = leb b'A' c && leb c b'Z' || leb b'a' c && leb c b'z'

-- `re.search(r"[A-Za-z]:\\", value)`
unfoldable pub has_drive : List ℕ → Bool
unfolding is_letter
has_drive [] = false
has_drive (c ∷ cs) = is_letter c && starts_with (ascii ":\\") cs || has_drive cs

module _ (t : Tools) where
  -- A local path, or an identity that changes.
  unfoldable pub is_mutable : String → Bool
  is_mutable value =
      starts_with (ascii "/") (codes value)
      || occurs (ascii "latest") (codes (t.lower value))
      || has_drive (codes value)

  -- `_validate_manifest_strings`
  unfoldable mutual
    pub validate_manifest_strings : Json → Result (Unit {0})
    validate_manifest_strings (Json.str value) =
        raise_if (is_mutable value)
          (artifact_error "producer manifest contains a local path or mutable identity")
    validate_manifest_strings (Json.obj fs) = validate_manifest_fields fs
    validate_manifest_strings (Json.arr vs) = validate_manifest_items vs
    validate_manifest_strings _ = ok tt

    pub validate_manifest_items : Items → Result (Unit {0})
    validate_manifest_items Items.nil = ok tt
    validate_manifest_items (Items.cons v vs) =
        validate_manifest_strings v >> validate_manifest_items vs

    pub validate_manifest_fields : Fields → Result (Unit {0})
    validate_manifest_fields Fields.end = ok tt
    validate_manifest_fields (Fields.field k v fs) =
        validate_manifest_strings v >> validate_manifest_fields fs

  -- `canonical_json` of vdp_artifact.py.
  unfoldable pub canonical_json : Json → Result Bytes
  canonical_json value = validate_canonical_value value >> t.dumps_canonical value

  canonical_object : Bytes → Json → Result Fields
  canonical_object raw (Json.obj fs) = do
    written ← canonical_json (Json.obj fs)
    raise_if (not (same_bytes raw written))
        (artifact_error "metadata is not canonical RFC8785 JSON")
    ok fs
  canonical_object raw _ = err (artifact_error "metadata is not canonical RFC8785 JSON")

  -- `_canonical_document`, of a file's bytes. The message names the file.
  unfoldable pub canonical_document : Bytes → Result Fields
  unfolding canonical_object
  canonical_document raw = do value ← t.loads_utf8 raw; canonical_object raw value
