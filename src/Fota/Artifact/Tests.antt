-- ===== src/Fota/Artifact/Tests.antt =====
-- A small candidate of 1.0.0, validated and staged.
use aos_vehicle_platform.Prelude.{
  String, ◌≡◌, refl, Option, some, [], ◌∷◌, string_eq, nat_eq, if◌then◌else◌, contains, Result, ok,
  err, json_decode_error,
}
use aos_vehicle_platform.Prelude.Lists.{length}
use aos_vehicle_platform.Prelude.Dict.{Dict, lookup, insert}
use aos_vehicle_platform.Python.{Json, Fields, pos}
use aos_vehicle_platform.Manifest.{component_type}
use aos_vehicle_platform.Fota.Bytes.{Bytes, ascii, same_bytes}
use aos_vehicle_platform.Fota.Documents.{object, array, fields_of}
use aos_vehicle_platform.Fota.Tar.{Tools, Stream, archive_end, member, file_entry}
use aos_vehicle_platform.Fota.Disk.{Child, plain, Disk, plain_child, publish}
use aos_vehicle_platform.Fota.Prebuild.Compose.{Repository}
use aos_vehicle_platform.Fota.Artifact.{prepared_filename, manifest_filename}
use aos_vehicle_platform.Fota.Artifact.Producer.{
  product_source_revision, product_source_tree, factory_version, factory_raw_sha256,
}
use aos_vehicle_platform.Fota.Artifact.Document.{producer_manifest, candidate_summary}
use aos_vehicle_platform.Fota.Artifact.Candidate.{validate}
use aos_vehicle_platform.Fota.Artifact.Candidate.Bound.{IsBound, validate-IsBound}
use aos_vehicle_platform.Fota.Artifact.Stage.{store_path, stage}
use aos_vehicle_platform.Fota.Artifact.Stage.Addressed.{IsStaged, stage-IsStaged}
use aos_vehicle_platform.Fota.Artifact.{
  require_version, candidate_id, layer_name, layer_media_type, layer_path, validate_canonical_value,
  has_drive, is_mutable, validate_manifest_strings, canonical_json, canonical_document,
}
use aos_vehicle_platform.Fota.Artifact.Candidate.{
  read_candidate, check_envelope, check_product, check_origin, check_contents, check_layer,
  check_manifest,
}
use aos_vehicle_platform.Fota.Artifact.Document.{
  prepared_record, layer_record, with_records, bound_entries,
}
use aos_vehicle_platform.Fota.Artifact.Family.{item, texts_of, len}
use aos_vehicle_platform.Fota.Artifact.Layer.{
  candidate_file, check_packages, check_layer_layout, bytes_of, check_accepted, envelope_bytes,
  check_component, check_provenance, lock_records, check_sbom,
}
use aos_vehicle_platform.Fota.Artifact.Metadata.{
  suffix, byte_at, check_elf, is_regular, is_directory, expected_mode, scan_file, check_member,
  validate_archive_metadata,
}
use aos_vehicle_platform.Fota.Artifact.Producer.{
  envelope_configuration, predecessor_of, sorted_difference, delta_document, contract_delta,
}
use aos_vehicle_platform.Fota.Artifact.Stage.{
  read_child, digest_of, canonical_bytes, bytes_of_file, check_store, fill_store, reuse_store,
  stage_at,
}
use aos_vehicle_platform.Fota.Tar.{
  is_unsafe_member, safe_member, map_member, map_members_from, member_map_bytes, member_map,
}
use aos_vehicle_platform.Fota.Documents.{
  as_object, file_names, content_of, has_file, names_under, differs,
}
use aos_vehicle_platform.Fota.Family.{profile_module, check_releases}
use aos_vehicle_platform.Fota.Paths.{
  parts_of, posix_path, is_unsafe, rstrip, is_slash, is_empty, keep, scan,
}
use aos_vehicle_platform.Fota.Bytes.{starts_with, occurs, any_occurs}
use aos_vehicle_platform.Python.{get, get_or_null, same_set, is_subset, is_str, is_int, keys, items}
use aos_vehicle_platform.Python.Equal.{json_equals}
use aos_vehicle_platform.Manifest.Valid.{text_items}
use aos_vehicle_platform.Prelude.Text.{every, codes_le, sorted}

-- Every file of the repository holds its path.
abbrev repo : Repository
repo path = ok (ascii path)

abbrev first_key : Json → String
first_key (Json.obj (Fields.field k v fs)) = k
first_key _ = ""

-- An archive of files.
abbrev stream_of : Dict String Bytes → Stream
stream_of [] = archive_end
stream_of (file ∷ files) = member (file_entry file) (stream_of files)

abbrev lock : Bytes
lock = ascii "packaging/fota/requirements-arm64.txt"

abbrev layer_files : Dict String Bytes
layer_files =
    ("bin/vehicle-data-provider", ascii "launcher")
    ∷ ("component.json", ascii "component")
    ∷ (
      "config/capability-manifest.json",
      ascii "providers/carla-viss-kuksa/releases/1.0.0/capability-manifest.json",
    )
    ∷ ("config/provider.json", ascii "providers/carla-viss-kuksa/releases/1.0.0/provider.json")
    ∷ ("DEPENDENCIES.json", [])
    ∷ ("THIRD_PARTY_NOTICES.md", [])
    ∷ ("licenses/Apache-2.0.txt", [])
    ∷ ("dependency-lock/requirements-arm64.txt", lock)
    ∷ ("provenance/provenance.json", ascii "provenance")
    ∷ ("sbom/spdx.json", ascii "sbom")
    ∷ ("python/provider_main.py", [])
    ∷ ("python/carla_viss_kuksa_provider/vdp_release_profile.py", [])
    ∷ ("python/carla_viss_kuksa_provider/releases/v1.py", [])
    ∷ ("python/site-packages/grpcio-1.75.0.dist-info/RECORD", [])
    ∷ ("python/site-packages/kuksa_client-0.5.0.dist-info/RECORD", [])
    ∷ ("python/site-packages/protobuf-5.29.6.dist-info/RECORD", [])
    ∷ ("python/site-packages/typing_extensions-4.15.0.dist-info/RECORD", [])
    ∷ ("python/site-packages/websockets-15.0.1.dist-info/RECORD", [])
    ∷ []

abbrev component : Json
component = object (
    ("semanticVersion", Json.str "1.0.0")
    ∷ ("architecture", Json.str "arm64")
    ∷ ("componentType", Json.str component_type)
    ∷ ("capabilityManifestSha256", Json.str "0")
    ∷ [])

abbrev capability : Json
capability = object (
    ("semanticVersion", Json.str "1.0.0")
    ∷ ("capabilities", array (Json.str "INBOUND_BASE_DYNAMICS" ∷ []))
    ∷ ("readPaths", array (Json.str "Vehicle.Speed" ∷ []))
    ∷ ("advisoryEndpoints", array [])
    ∷ [])

abbrev inputs : Json
inputs = array (
    object (
      ("byteLength", Json.int (pos (length lock)))
      ∷ ("path", Json.str "payload/dependency-lock/requirements-arm64.txt")
      ∷ ("sha256", Json.str "0")
      ∷ [])
    ∷ [])

abbrev provenance : Json
provenance = object (
    ("sourceRevision", Json.str product_source_revision)
    ∷ ("sourceTree", Json.str product_source_tree)
    ∷ ("factoryImageVersion", Json.str factory_version)
    ∷ ("factoryImageRawSha256", Json.str factory_raw_sha256)
    ∷ ("semanticVersion", Json.str "1.0.0")
    ∷ ("buildInputs", inputs)
    ∷ [])

abbrev sbom : Json
sbom = object (
    ("spdxVersion", Json.str "SPDX-2.3")
    ∷ ("packages", array (Json.null ∷ Json.null ∷ Json.null ∷ Json.null ∷ Json.null ∷ []))
    ∷ [])

abbrev document : Bytes → Result Json
document content =
    if same_bytes content (ascii "component")
    then ok component
    else if same_bytes content (ascii "provenance")
    then ok provenance
    else if same_bytes content (ascii "sbom")
    then ok sbom
    else if same_bytes content (ascii "providers/carla-viss-kuksa/releases/1.0.0/provider.json")
    then ok (object (("capabilityManifestSha256", Json.str "0") ∷ []))
    else ok capability

abbrev envelope_files : Dict String Bytes
envelope_files =
    ("config.yaml", ascii "$comment")
    ∷ ("vehicle-data-platform/vdp-1.0.0-arm64.tar", ascii "layer")
    ∷ []

-- What the candidate is made of, but for the documents that are read back.
abbrev writing : Tools
writing = record {
  sha256 = λ content. "0";
  loads = document;
  loads_utf8 = λ content. err json_decode_error;
  dumps_indent = first_key;
  dumps_canonical = λ value. ok (ascii (first_key value));
  tar_write = λ entries. ok (ascii "ustar");
  tar_read = λ archive. stream_of envelope_files;
  tar_read_any = λ archive. stream_of layer_files;
  gunzip = λ content. ok (some (ascii "envelope"));
  lower = λ text. text;
}

abbrev json_of : Result Json → Json
json_of (ok v) = v
json_of (err e) = Json.null

abbrev manifest : Json
manifest = json_of (
    producer_manifest writing "1.0.0" (ascii "artifact") (ascii "layer") inputs capability "0" "0"
      repo)

abbrev summary : Json
summary =
    json_of
      (candidate_summary writing "1.0.0" manifest (ascii "$comment") (ascii "preparedArtifact"))

abbrev tools : Tools
tools = record writing {
  loads_utf8 =
      λ content. if same_bytes content (ascii "preparedArtifact") then ok manifest else ok summary;
}

abbrev children : Dict String Child
children =
    ("aosedge-vdp-component-1.0.0-linux-arm64.unsigned.tar.gz", plain (ascii "artifact"))
    ∷ ("vdp-1.0.0-arm64.tar", plain (ascii "layer"))
    ∷ ("candidate.json", plain (ascii "$comment"))
    ∷ []

abbrev manifest_file : Option Bytes
manifest_file = some (ascii "preparedArtifact")

validated :
    validate tools repo
      (some children)
      "1.0.0"
      "aosedge-vdp-component-1.0.0.manifest.json"
      manifest_file
    ≡ ok manifest
unfolding prepared_filename manifest_filename plain_child fields_of object array lookup insert
    file_entry producer_manifest candidate_summary same_bytes string_eq nat_eq validate
    require_version candidate_id layer_name layer_media_type layer_path validate_canonical_value
    has_drive is_mutable validate_manifest_strings canonical_json canonical_document read_candidate
    check_envelope check_product check_origin check_contents check_layer check_manifest
    prepared_record layer_record with_records bound_entries item texts_of len candidate_file
    check_packages check_layer_layout bytes_of check_accepted envelope_bytes check_component
    check_provenance lock_records check_sbom suffix byte_at check_elf is_regular is_directory
    expected_mode scan_file check_member validate_archive_metadata envelope_configuration
    predecessor_of sorted_difference delta_document contract_delta read_child digest_of
    canonical_bytes bytes_of_file check_store fill_store reuse_store stage_at is_unsafe_member
    safe_member map_member map_members_from member_map_bytes member_map as_object file_names
    content_of has_file names_under differs profile_module check_releases parts_of posix_path
    is_unsafe rstrip is_slash is_empty keep scan starts_with occurs any_occurs get get_or_null
    same_set is_subset is_str is_int keys items json_equals text_items every codes_le sorted
    contains
validated = refl

staged :
    stage tools repo [] "/store" children "1.0.0" "aosedge-vdp-component-1.0.0.manifest.json"
      manifest_file manifest_file
    ≡ ok (
      publish "/store/0" "aosedge-vdp-component-1.0.0-linux-arm64.unsigned.tar.gz"
          (ascii "artifact")
          "aosedge-vdp-component-1.0.0.manifest.json"
          (ascii "preparedArtifact")
          [],
      "/store/0",
    )
unfolding stage prepared_filename manifest_filename plain_child fields_of object array lookup insert
    file_entry producer_manifest candidate_summary same_bytes string_eq nat_eq validate
    require_version candidate_id layer_name layer_media_type layer_path validate_canonical_value
    has_drive is_mutable validate_manifest_strings canonical_json canonical_document read_candidate
    check_envelope check_product check_origin check_contents check_layer check_manifest
    prepared_record layer_record with_records bound_entries item texts_of len candidate_file
    check_packages check_layer_layout bytes_of check_accepted envelope_bytes check_component
    check_provenance lock_records check_sbom suffix byte_at check_elf is_regular is_directory
    expected_mode scan_file check_member validate_archive_metadata envelope_configuration
    predecessor_of sorted_difference delta_document contract_delta read_child digest_of
    canonical_bytes bytes_of_file check_store fill_store reuse_store stage_at is_unsafe_member
    safe_member map_member map_members_from member_map_bytes member_map as_object file_names
    content_of has_file names_under differs profile_module check_releases parts_of posix_path
    is_unsafe rstrip is_slash is_empty keep scan starts_with occurs any_occurs get get_or_null
    same_set is_subset is_str is_int keys items json_equals text_items every codes_le sorted
    contains
staged = refl

validate-IsBound_example :
    (found : Dict String Child) × (some children ≡ some found)
    × IsBound tools repo found "1.0.0" manifest
validate-IsBound_example =
    validate-IsBound tools repo (some children) "1.0.0" "aosedge-vdp-component-1.0.0.manifest.json"
      manifest_file manifest validated

abbrev store_disk : Disk
store_disk =
    publish "/store/0" "aosedge-vdp-component-1.0.0-linux-arm64.unsigned.tar.gz" (ascii "artifact")
      "aosedge-vdp-component-1.0.0.manifest.json" (ascii "preparedArtifact") []

stage-IsStaged_example :
    (artifact : Bytes) × (canonical : Bytes) × (prepared : String) × (name : String)
    × (prepared_filename "1.0.0" ≡ ok prepared)
    × (manifest_filename "1.0.0" ≡ ok name)
    × (plain_child prepared children ≡ some artifact)
    × (manifest_file ≡ some canonical)
    × IsStaged tools [] store_disk
        (store_path "/store" (tools.sha256 artifact))
        "/store/0"
        prepared
        name
        (tools.sha256 artifact)
        artifact
        canonical
stage-IsStaged_example =
    stage-IsStaged tools repo [] "/store" children "1.0.0"
      "aosedge-vdp-component-1.0.0.manifest.json" manifest_file manifest_file store_disk "/store/0"
      staged
