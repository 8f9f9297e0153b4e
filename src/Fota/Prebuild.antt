-- ===== src/Fota/Prebuild.antt =====
-- packaging/fota/vdp_family.py: the checks that a source prebuild passes.
-- `Compose` has its composition, `Output` the directories that `prepare` writes and
-- `validate_directory` reads.
mod Tests
pub mod Compose
pub mod Output
pub mod Prepared
pub mod Valid
pub mod Listed
pub mod Releases
pub mod Bound
use aos_vehicle_platform.Prelude.{
  ℕ, String, ◌<>◌, Bool, true, false, not, ◌&&◌, ◌||◌, Option, none, some, List, [], ◌∷◌, ◌++◌,
  ◌==◌, nat_eq, string_eq, if◌then◌else◌, contains, Result, ok, err, other_error, key_error,
  prebuild_error, raise_if, ◌>>=◌, ◌>>◌,
}
use aos_vehicle_platform.Prelude.Lists.{length}
use aos_vehicle_platform.Prelude.Text.{codes, every, is_digit, drop_last}
use aos_vehicle_platform.Prelude.Dict.{Dict, lookup}
use aos_vehicle_platform.Prelude.{ltb, leb}
use aos_vehicle_platform.Python.{
  Json, Items, Fields, pos, get_or_null, is_subset, same_set, is_str, is_int,
}
use aos_vehicle_platform.Manifest.{component_type, is_objects}
use aos_vehicle_platform.Manifest.Releases.{Texts}
use aos_vehicle_platform.Fota.Bytes.{Bytes, ascii, starts_with, any_occurs}
use aos_vehicle_platform.Fota.Documents.{
  as_object, content_of, has_file, file_names, differs, is_true,
}
use aos_vehicle_platform.Fota.Family.{check_releases, advisory_module}
use aos_vehicle_platform.Fota.Tar.{Tools, sort_items, ustar, members}

-- `FORBIDDEN`
unfoldable pub forbidden : List Bytes
forbidden =
    ascii ("-----BEGIN " <> "PRIVATE KEY-----")
    ∷ ascii ("-----BEGIN " <> "RSA PRIVATE KEY-----")
    ∷ ascii ("-----BEGIN " <> "EC PRIVATE KEY-----")
    ∷ ascii ("AOS" <> "_SECRET")
    ∷ ascii "\"publish\""
    ∷ []

abbrev pub required : List String
required =
    "bin/vehicle-data-provider" ∷ "component.json" ∷ "config/capability-manifest.json"
    ∷ "config/provider.json" ∷ "DEPENDENCIES.json" ∷ "THIRD_PARTY_NOTICES.md"
    ∷ "licenses/Apache-2.0.txt" ∷ "prebuild.json" ∷ "python/provider_main.py"
    ∷ "python/carla_viss_kuksa_provider/__init__.py"
    ∷ "python/carla_viss_kuksa_provider/__main__.py" ∷ "python/carla_viss_kuksa_provider/bridge.py"
    ∷ "python/carla_viss_kuksa_provider/manifest.py"
    ∷ "python/carla_viss_kuksa_provider/readiness.py"
    ∷ "python/carla_viss_kuksa_provider/runtime.py"
    ∷ "python/carla_viss_kuksa_provider/vdp_release_profile.py" ∷ []

unfoldable pub check_layout : Dict String Bytes → String → Result (Unit {0})
check_layout files version = do
  raise_if (not (is_subset required (file_names files)))
      (prebuild_error "source prebuild layout is incomplete")
  exact ← check_releases files version
  raise_if (not exact) (prebuild_error "source prebuild contains another release profile")
  raise_if (differs (has_file advisory_module files) (version == "3.0.0"))
      (prebuild_error "source prebuild advisory module does not match release")

-- `for name, content in files.items()`
unfoldable pub check_forbidden : Dict String Bytes → Result (Unit {0})
check_forbidden [] = ok tt
check_forbidden ((name, content) ∷ files) =
    let rest = check_forbidden files in
    elim (any_occurs forbidden content) [
      | true ↦ err (prebuild_error ("forbidden payload data: " <> name))
      | false ↦ rest
    ]

unfoldable pub check_component : Fields → Result (Unit {0})
check_component c =
    raise_if
      (not (is_str (get_or_null "architecture" c) "arm64")
        || not (is_str (get_or_null "componentType" c) component_type)
        || not (is_int (get_or_null "runtimeInterface" c) 1)
        || not (is_int (get_or_null "schemaVersion" c) 2))
      (prebuild_error "component target identity mismatch")

unfoldable pub check_prebuild : Fields → Result (Unit {0})
check_prebuild p =
    raise_if
      (not (is_str (get_or_null "architecture" p) "arm64")
        || not (is_str (get_or_null "componentType" p) component_type)
        || not (is_int (get_or_null "runtimeInterface" p) 1)
        || not (is_str (get_or_null "kind" p) "vdp-source-prebuild-v1"))
      (prebuild_error "source prebuild target identity mismatch")

unfoldable pub check_versions : Fields → Fields → String → Result (Unit {0})
check_versions c m version = do
  raise_if (not (is_str (get_or_null "componentType" m) component_type))
      (prebuild_error "capability manifest target identity mismatch")
  raise_if
      (not (is_str (get_or_null "semanticVersion" c) version)
        || not (is_str (get_or_null "semanticVersion" m) version))
      (prebuild_error "semantic version mismatch")

unfoldable pub check_bindings :
    Fields → Fields → Fields → String → String → String → Result (Unit {0})
check_bindings c g p manifest_sha version revision = do
  raise_if (not (is_str (get_or_null "semanticVersion" g) version))
      (prebuild_error "provider configuration version mismatch")
  raise_if (not (is_str (get_or_null "capabilityManifestSha256" c) manifest_sha))
      (prebuild_error "component manifest digest mismatch")
  raise_if (not (is_str (get_or_null "capabilityManifestSha256" g) manifest_sha))
      (prebuild_error "provider manifest digest mismatch")
  raise_if (not (is_str (get_or_null "sourceRevision" p) revision))
      (prebuild_error "prebuild source revision mismatch")
  raise_if (not (is_true (get_or_null "notDeployable" p)))
      (prebuild_error "source prebuild must remain non-deployable")

-- The checks of the four documents, in their order; what is no dict fails where it is first read.
unfoldable pub check_documents :
    Json → Json → Json → Json → String → String → String → Result Fields
check_documents component manifest config prebuild manifest_sha version revision = do
  c ← as_object component
  check_component c
  p ← as_object prebuild
  check_prebuild p
  m ← as_object manifest
  check_versions c m version
  g ← as_object config
  check_bindings c g p manifest_sha version revision
  ok p

-- The files whose digests the inventory has: all but the document that holds it.
unfoldable pub listed : Dict String Bytes → Dict String Bytes
listed [] = []
listed ((name, content) ∷ files) =
    let rest = listed files in if name == "prebuild.json" then rest else (name, content) ∷ rest

module _ (t : Tools) where
  unfoldable pub records : Dict String Bytes → List Texts
  records [] = []
  records ((name, content) ∷ files) =
      (("path", name) ∷ ("sha256", t.sha256 content) ∷ []) ∷ records files

  -- `expected_source_files`
  unfoldable pub expected_source_files : Dict String Bytes → List Texts
  unfolding records listed
  expected_source_files files = records (listed (sort_items files))

  unfoldable pub validate_files : Dict String Bytes → String → String → Result (Unit {0})
  validate_files files version revision = do
    check_layout files version
    check_forbidden files
    component ← content_of "component.json" files >>= t.loads
    raw ← content_of "config/capability-manifest.json" files
    manifest ← t.loads raw
    config ← content_of "config/provider.json" files >>= t.loads
    prebuild ← content_of "prebuild.json" files >>= t.loads
    p ← check_documents component manifest config prebuild (t.sha256 raw) version revision
    raise_if (not (is_objects (get_or_null "sourceFiles" p) (expected_source_files files)))
        (prebuild_error "source prebuild input inventory mismatch")

  -- `validate_bytes`
  unfoldable pub validate_bytes : Bytes → String → String → Result (Unit {0})
  validate_bytes archive version revision = do
    files ← members t archive
    validate_files files version revision
