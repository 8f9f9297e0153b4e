-- ===== src/Fota/Artifact/Records.antt =====
-- The records of a candidate's inputs, `_input_records` and `_runtime_packages`, of
-- packaging/fota/vdp_artifact.py.
use aos_vehicle_platform.Prelude.{
  ℕ, ◌+◌, String, ◌<>◌, false, Option, none, some, List, [], ◌∷◌, ◌++◌, map, nat_eq, string_eq,
  if◌then◌else◌, Result, ok, err, type_error, artifact_error, ◌>>=◌,
}
use aos_vehicle_platform.Prelude.Lists.{length}
use aos_vehicle_platform.Prelude.Text.{decimal}
use aos_vehicle_platform.Prelude.Dict.{Dict}
use aos_vehicle_platform.Python.{Json, pos, get_or_null, is_str, items}
use aos_vehicle_platform.Fota.Bytes.{Bytes}
use aos_vehicle_platform.Fota.Documents.{as_object, object, array}
use aos_vehicle_platform.Fota.Tar.{Tools, sort_items}
use aos_vehicle_platform.Fota.Prebuild.Compose.{Repository}
use aos_vehicle_platform.Fota.Artifact.Family.{item}
use aos_vehicle_platform.Fota.Artifact.Wheels.{Wheel}

module _ (t : Tools) where
  input_record : String → Bytes → Dict String Json
  input_record path content =
      (
        path,
        object (
            ("byteLength", Json.int (pos (length content)))
            ∷ ("path", Json.str path)
            ∷ ("sha256", Json.str (t.sha256 content))
            ∷ []),
      )
      ∷ []

  file_records : String → Dict String Bytes → Dict String Json
  file_records prefix [] = []
  file_records prefix ((name, content) ∷ files) =
      input_record (prefix <> name) content ++ file_records prefix files

  builder_records : Repository → List String → Result (Dict String Json)
  builder_records repo [] = ok []
  builder_records repo (path ∷ paths) = do
    content ← repo path
    rest ← builder_records repo paths
    ok (input_record path content ++ rest)

  -- `_input_records`: by their paths, which differ.
  unfoldable pub input_records : Repository → Dict String Bytes → List Wheel → Bytes → Result Json
  unfolding input_record file_records builder_records
  input_records repo payload wheels dependency_lock = do
    builders ← builder_records repo (
        "packaging/fota/build-provider-component" ∷ "packaging/fota/vdp_artifact.py"
        ∷ "packaging/fota/vdp_family.py" ∷ [])
    let lock = input_record "payload/dependency-lock/requirements-arm64.txt" dependency_lock
    ok (
        array (
          map (λ (r : String × Json). r.1)
            (sort_items (
              file_records "payload/" payload
              ++ (builders ++ (lock ++ file_records "wheelhouse/" wheels))))))

  -- `by_digest.get(digest)`: the last of several with one digest.
  dependency_of : List Json → String → Result (Option Json)
  dependency_of [] digest = ok none
  dependency_of (v ∷ vs) digest = do
    fs ← as_object v
    rest ← dependency_of vs digest
    elim rest [
      | some later ↦ ok (some later)
      | none ↦ ok (if is_str (get_or_null "artifactSha256" fs) digest then some v else none)
    ]

  package_of : ℕ → String → Json → Result Json
  package_of index digest dependency = do
    source ← item "source" dependency
    licence ← item "license" dependency
    name ← item "name" dependency
    version ← item "displayVersion" dependency
    ok (
        object (
          ("SPDXID", Json.str ("SPDXRef-Package-" <> decimal index))
          ∷ (
            "checksums",
            array (
                object (("algorithm", Json.str "SHA256") ∷ ("checksumValue", Json.str digest) ∷ [])
                ∷ []),
          )
          ∷ ("copyrightText", Json.str "NOASSERTION")
          ∷ ("downloadLocation", source)
          ∷ ("filesAnalyzed", Json.bool false)
          ∷ ("licenseConcluded", licence)
          ∷ ("licenseDeclared", licence)
          ∷ ("name", name)
          ∷ ("versionInfo", version)
          ∷ []))

  packages_from : List Json → ℕ → List Wheel → Result (List Json)
  packages_from runtime index [] = ok []
  packages_from runtime index ((name, content) ∷ wheels) = do
    let digest = t.sha256 content
    found ← dependency_of runtime digest
    dependency ← elim found [
      | none ↦ err (artifact_error ("wheel is absent from dependency inventory: " <> name))
      | some dependency ↦ ok dependency
    ]
    described ← package_of index digest dependency
    rest ← packages_from runtime (index + 1) wheels
    ok (described ∷ rest)

  items_in : Json → Result (List Json)
  items_in (Json.arr vs) = ok (items vs)
  items_in _ = err type_error

  -- `_runtime_packages`
  unfoldable pub runtime_packages : Repository → List Wheel → Result (List Json)
  unfolding items_in packages_from package_of dependency_of
  runtime_packages repo wheels = do
    raw ← repo "DEPENDENCIES.json"
    runtime ← t.loads_utf8 raw >>= item "runtime" >>= items_in
    packages_from runtime 1 wheels
