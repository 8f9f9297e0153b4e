-- ===== src/Fota/Prebuild/Compose.antt =====
-- `compose` of packaging/fota/vdp_family.py.
use aos_vehicle_platform.Prelude.{
  ℕ, String, ◌<>◌, Bool, true, not, ◌&&◌, ◌||◌, List, [], ◌∷◌, ◌++◌, ◌==◌, nat_eq, string_eq,
  if◌then◌else◌, contains, Result, ok, prebuild_error, raise_if, ◌>>=◌, ◌>>◌,
}
use aos_vehicle_platform.Prelude.{leb}
use aos_vehicle_platform.Prelude.Lists.{length}
use aos_vehicle_platform.Prelude.Text.{codes, every, is_digit, drop_last}
use aos_vehicle_platform.Prelude.Dict.{Dict}
use aos_vehicle_platform.Python.{Json, pos}
use aos_vehicle_platform.Manifest.{component_type}
use aos_vehicle_platform.Fota.Bytes.{Bytes, ascii}
use aos_vehicle_platform.Fota.Documents.{object, array, content_of}
use aos_vehicle_platform.Fota.Family.{versions, profile_module, releases_prefix, advisory_module}
use aos_vehicle_platform.Fota.Tar.{Tools, sort_items, ustar}
use aos_vehicle_platform.Fota.Prebuild.{validate_bytes}

common_provider_modules : List String
common_provider_modules = "bridge.py" ∷ "manifest.py" ∷ "readiness.py" ∷ "runtime.py" ∷ []

-- A Git object's full name in hexadecimal.
is_hex : ℕ → Bool
unfolding is_digit
is_hex c = is_digit c || (leb b'a' c && leb c b'f')

unfoldable pub is_revision : String → Bool
unfolding is_hex
is_revision revision = length (codes revision) == 40 && every is_hex (codes revision)

abbrev provider_source : String
provider_source = "providers/carla-viss-kuksa/src/carla_viss_kuksa_provider/"

abbrev python_package : String
python_package = "python/carla_viss_kuksa_provider/"

abbrev licence_head : String
licence_head =
    "# SPDX-FileCopyrightText: 2026 maninblack\n# SPDX-License-" <> "Identifier: Apache-2.0\n\n"

-- The repository's files by their paths from its root.
abbrev pub Repository : Type 0
Repository = String → Result Bytes

-- The common modules of the provider.
read_modules : Repository → List String → Result (Dict String Bytes)
read_modules repo [] = ok []
read_modules repo (name ∷ names) = do
  content ← repo (provider_source <> name)
  rest ← read_modules repo names
  ok ((python_package <> name, content) ∷ rest)

read_advisory : Repository → String → Result (Dict String Bytes)
read_advisory repo version =
    if version == "3.0.0"
    then (repo (provider_source <> "advisory.py") >>= λ content.
        ok ((advisory_module, content) ∷ []))
    else ok []

-- The files that `compose` takes from the repository, and the two modules that it writes.
unfoldable pub source_payload : Repository → String → Result (Dict String Bytes)
unfolding read_modules read_advisory common_provider_modules
source_payload repo version = do
  let release = "providers/carla-viss-kuksa/releases/" <> version <> "/"
  launcher ← repo "packaging/fota/vehicle-data-provider"
  manifest ← repo (release <> "capability-manifest.json")
  provider ← repo (release <> "provider.json")
  dependencies ← repo "DEPENDENCIES.json"
  notices ← repo "THIRD_PARTY_NOTICES.md"
  licence ← repo "LICENSES/Apache-2.0.txt"
  provider_main ← repo "packaging/fota/provider_main.py"
  package_main ← repo (provider_source <> "__main__.py")
  releases_init ← repo (provider_source <> "releases/__init__.py")
  module_name ← profile_module version
  profile ← repo (provider_source <> "releases/" <> module_name)
  common ← read_modules repo common_provider_modules
  advisory ← read_advisory repo version
  ok (
      (("bin/vehicle-data-provider", launcher)
        ∷ ("config/capability-manifest.json", manifest)
        ∷ ("config/provider.json", provider)
        ∷ ("DEPENDENCIES.json", dependencies)
        ∷ ("THIRD_PARTY_NOTICES.md", notices)
        ∷ ("licenses/Apache-2.0.txt", licence)
        ∷ ("python/provider_main.py", provider_main)
        ∷ (
          python_package <> "__init__.py",
          ascii (licence_head <> "__version__ = \"" <> version <> "\"\n"),
        )
        ∷ (python_package <> "__main__.py", package_main)
        ∷ (python_package <> "releases/__init__.py", releases_init)
        ∷ (releases_prefix <> module_name, profile)
        ∷ (
          python_package <> "vdp_release_profile.py",
          ascii (
              licence_head
              <> "from .releases."
              <> drop_last (drop_last (drop_last module_name))
              <> " import *  # noqa: F401,F403\n"),
        )
        ∷ [])
      ++ (common ++ advisory))

unfoldable pub component_document : String → String → Json
component_document version manifest_sha = object (
    ("architecture", Json.str "arm64")
    ∷ ("capabilityManifest", Json.str "config/capability-manifest.json")
    ∷ ("capabilityManifestSha256", Json.str manifest_sha)
    ∷ ("component", Json.str "vehicle-data-platform")
    ∷ ("componentType", Json.str component_type)
    ∷ ("configuration", Json.str "config/provider.json")
    ∷ ("entrypoint", Json.str "bin/vehicle-data-provider")
    ∷ ("os", Json.str "linux")
    ∷ ("runtimeInterface", Json.int (pos 1))
    ∷ ("schemaVersion", Json.int (pos 2))
    ∷ ("semanticVersion", Json.str version)
    ∷ [])

module _ (t : Tools) where
  -- `canonical_json` of vdp_family.py.
  unfoldable pub indented_json : Json → Bytes
  indented_json value = ascii (t.dumps_indent value <> "\n")

  record_objects : Dict String Bytes → List Json
  record_objects [] = []
  record_objects ((name, content) ∷ files) =
      object (("path", Json.str name) ∷ ("sha256", Json.str (t.sha256 content)) ∷ [])
      ∷ record_objects files

  -- `prebuild`, in the order of its keys.
  unfoldable pub prebuild_entries :
      String → String → String → String → Dict String Bytes → List (String × Json)
  unfolding record_objects
  prebuild_entries version revision manifest_sha lock_sha files =
      (
        "$comment",
        Json.str
            ("SPDX-FileCopyrightText: 2026 maninblack; SPDX-License-" <> "Identifier: Apache-2.0"),
      )
      ∷ ("architecture", Json.str "arm64")
      ∷ ("capabilityManifestSha256", Json.str manifest_sha)
      ∷ ("componentType", Json.str component_type)
      ∷ ("dependencyLockSha256", Json.str lock_sha)
      ∷ ("kind", Json.str "vdp-source-prebuild-v1")
      ∷ ("notDeployable", Json.bool true)
      ∷ ("runtimeInterface", Json.int (pos 1))
      ∷ ("schemaVersion", Json.int (pos 1))
      ∷ ("semanticVersion", Json.str version)
      ∷ ("sourceFiles", array (record_objects (sort_items files)))
      ∷ ("sourceRevision", Json.str revision)
      ∷ []

  -- The end of `compose`, from the files beside `prebuild.json`. The document comes as its entries.
  unfoldable pub compose_archive :
      String → String → String → String → Dict String Bytes → Result (Bytes × List (String × Json))
  compose_archive version revision manifest_sha lock_sha files = do
    let prebuild = prebuild_entries version revision manifest_sha lock_sha files
    archive ← ustar t (files ++ ("prebuild.json", indented_json (object prebuild)) ∷ [])
    validate_bytes t archive version revision
    ok (archive, prebuild)

  -- `compose`
  unfoldable pub compose : Repository → String → String → Result (Bytes × List (String × Json))
  unfolding component_document
  compose repo version revision = do
    raise_if (not (contains versions version)) (prebuild_error "unsupported VDP semantic version")
    raise_if (not (is_revision revision))
        (prebuild_error "source revision must be a full Git object ID")
    payload ← source_payload repo version
    raw ← content_of "config/capability-manifest.json" payload
    let component = indented_json (component_document version (t.sha256 raw))
    lock ← repo "packaging/fota/requirements-arm64.txt"
    compose_archive version revision (t.sha256 raw) (t.sha256 lock)
        (payload ++ ("component.json", component) ∷ [])
