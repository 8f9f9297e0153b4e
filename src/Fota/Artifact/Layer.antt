-- ===== src/Fota/Artifact/Layer.antt =====
-- The checks of a candidate's layer in `validate` of packaging/fota/vdp_artifact.py.
use aos_vehicle_platform.Prelude.{
  ℕ, String, ◌<>◌, Bool, true, false, not, ◌||◌, Option, none, some, List, [], ◌∷◌, if◌then◌else◌,
  ◌==◌, nat_eq, string_eq, Result, ok, err, type_error, artifact_error, raise_if, ◌>>=◌, ◌>>◌,
}
use aos_vehicle_platform.Prelude.Dict.{Dict}
use aos_vehicle_platform.Python.{Json, Fields, get, get_or_null, items, is_subset, is_str}
use aos_vehicle_platform.Manifest.{component_type}
use aos_vehicle_platform.Fota.Bytes.{Bytes, same_bytes}
use aos_vehicle_platform.Fota.Documents.{
  as_object, content_of, has_file, file_names, names_under, differs,
}
use aos_vehicle_platform.Fota.Family.{check_releases, advisory_module}
use aos_vehicle_platform.Fota.Tar.{Entry}
use aos_vehicle_platform.Fota.Artifact.Family.{len}
use aos_vehicle_platform.Fota.Artifact.Producer.{
  product_source_revision, product_source_tree, factory_version, factory_raw_sha256,
}

abbrev pub Members : Type 0
Members = Dict String (Entry × Bytes)

abbrev pub dependency_lock_path : String
dependency_lock_path = "payload/dependency-lock/requirements-arm64.txt"

required : List String
required =
    "bin/vehicle-data-provider" ∷ "component.json" ∷ "config/capability-manifest.json"
    ∷ "config/provider.json" ∷ "DEPENDENCIES.json" ∷ "THIRD_PARTY_NOTICES.md"
    ∷ "licenses/Apache-2.0.txt" ∷ "dependency-lock/requirements-arm64.txt"
    ∷ "provenance/provenance.json" ∷ "sbom/spdx.json" ∷ "python/provider_main.py"
    ∷ "python/carla_viss_kuksa_provider/vdp_release_profile.py" ∷ []

expected_package_prefixes : List String
expected_package_prefixes =
    "grpcio-1.75.0.dist-info/" ∷ "kuksa_client-0.5.0.dist-info/" ∷ "protobuf-5.29.6.dist-info/"
    ∷ "typing_extensions-4.15.0.dist-info/" ∷ "websockets-15.0.1.dist-info/" ∷ []

-- A plain file of the candidate, whose name stands in the message.
unfoldable pub candidate_file : String → Option Bytes → Result Bytes
candidate_file name none = err (artifact_error ("candidate file is missing or unsafe: " <> name))
candidate_file name (some content) = ok content

is_none_under : String → List String → Bool
is_none_under prefix names = elim (names_under ("python/site-packages/" <> prefix) names) [
  | [] ↦ true
  | name ∷ rest ↦ false
]

unfoldable pub check_packages : List String → List String → Result (Unit {0})
unfolding is_none_under
check_packages [] names = ok tt
check_packages (prefix ∷ prefixes) names = do
  raise_if (is_none_under prefix names) (artifact_error ("runtime package is missing: " <> prefix))
  check_packages prefixes names

unfoldable pub check_layer_layout : Members → String → Result (Unit {0})
unfolding required expected_package_prefixes
check_layer_layout members version = do
  raise_if (not (is_subset required (file_names members)) || has_file "prebuild.json" members)
      (artifact_error "deployable layer layout is incomplete or contains prebuild metadata")
  exact ← check_releases members version
  raise_if (not exact) (artifact_error "deployable layer contains another VDP release profile")
  raise_if (differs (has_file advisory_module members) (version == "3.0.0"))
      (artifact_error "advisory implementation does not match the selected release")
  check_packages expected_package_prefixes (file_names members)

-- `members[name][1]`
unfoldable pub bytes_of : String → Members → Result Bytes
bytes_of name members = content_of name members >>= λ member. ok member.1

-- A member's bytes have to be those of the repository's file.
unfoldable pub check_accepted : Bytes → String → Members → String → Result (Unit {0})
check_accepted accepted name members message = do
  content ← bytes_of name members
  raise_if (not (same_bytes content accepted)) (artifact_error message)

-- `gzip.open(artifact).read()`, where an `OSError` is the artifact's.
unfoldable pub envelope_bytes : Option Bytes → Result Bytes
envelope_bytes none = err (artifact_error "prepared artifact compression is invalid")
envelope_bytes (some content) = ok content

-- The tests of one `or`, in their order; what is no dict fails where it is first read.
unfoldable pub check_component : Json → Json → Json → String → String → Result (Unit {0})
check_component component provider capability capability_sha version = do
  let mismatch = artifact_error "VDP component identity or manifest binding mismatch"
  c ← as_object component
  raise_if
      (not (is_str (get_or_null "semanticVersion" c) version)
        || not (is_str (get_or_null "architecture" c) "arm64")
        || not (is_str (get_or_null "componentType" c) component_type)
        || not (is_str (get_or_null "capabilityManifestSha256" c) capability_sha))
      mismatch
  p ← as_object provider
  raise_if (not (is_str (get_or_null "capabilityManifestSha256" p) capability_sha)) mismatch
  m ← as_object capability
  raise_if (not (is_str (get_or_null "semanticVersion" m) version)) mismatch

unfoldable pub check_provenance : Fields → String → Result (Unit {0})
check_provenance provenance version =
    raise_if
      (not (is_str (get_or_null "sourceRevision" provenance) product_source_revision)
        || not (is_str (get_or_null "sourceTree" provenance) product_source_tree)
        || not (is_str (get_or_null "factoryImageVersion" provenance) factory_version)
        || not (is_str (get_or_null "factoryImageRawSha256" provenance) factory_raw_sha256)
        || not (is_str (get_or_null "semanticVersion" provenance) version))
      (artifact_error "artifact provenance binding mismatch")

locks_among : List Json → List Json
locks_among [] = []
locks_among (Json.obj fs ∷ vs) =
    let rest = locks_among vs in
    elim (is_str (get_or_null "path" fs) dependency_lock_path) [
      | true ↦ Json.obj fs ∷ rest
      | false ↦ rest
    ]
locks_among (_ ∷ vs) = locks_among vs

-- `lock_records`; the keys of a dict and the characters of a text are no dicts.
unfoldable pub lock_records : Option Json → Result (List Json)
unfolding locks_among
lock_records none = ok []
lock_records (some (Json.arr vs)) = ok (locks_among (items vs))
lock_records (some (Json.obj fs)) = ok []
lock_records (some (Json.str s)) = ok []
lock_records (some _) = err type_error

packages_length : Option Json → Result ℕ
packages_length none = ok 0
packages_length (some v) = len v

unfoldable pub check_sbom : Fields → Result (Unit {0})
unfolding packages_length
check_sbom sbom =
    if is_str (get_or_null "spdxVersion" sbom) "SPDX-2.3"
    then (packages_length (get "packages" sbom) >>= λ count.
        raise_if (not (count == 5)) (artifact_error "artifact SBOM package inventory mismatch"))
    else err (artifact_error "artifact SBOM package inventory mismatch")
