-- ===== src/Fota/Artifact/Stage.antt =====
-- `stage` of packaging/fota/vdp_artifact.py: the content-addressed store, over the paths on a disk.
pub mod Addressed
pub mod Stored
use aos_vehicle_platform.Prelude.{
  String, ◌<>◌, Bool, true, false, not, Option, none, some, List, [], ◌∷◌, ◌==◌, string_eq,
  if◌then◌else◌, Result, ok, err, type_error, other_error, key_error, artifact_error, raise_if,
  ◌>>=◌, ◌>>◌,
}
use aos_vehicle_platform.Prelude.Dict.{Dict, lookup, insert}
use aos_vehicle_platform.Python.{Json, same_set}
use aos_vehicle_platform.Fota.Bytes.{Bytes, same_bytes}
use aos_vehicle_platform.Fota.Documents.{has_file, file_names}
use aos_vehicle_platform.Fota.Tar.{Tools}
use aos_vehicle_platform.Fota.Prebuild.Compose.{Repository}
use aos_vehicle_platform.Fota.Disk.{Child, Disk, plain_child, folder_at, partial, publish}
use aos_vehicle_platform.Fota.Artifact.{prepared_filename, manifest_filename}
use aos_vehicle_platform.Fota.Artifact.Family.{item}
use aos_vehicle_platform.Fota.Artifact.Candidate.{validate}

-- `CONTENT_STORE_ROOT / digest`
abbrev pub store_path : String → String → String
store_path store_root digest = store_root <> "/" <> digest

-- A file's bytes; a link, which the code would follow, is not read in the model.
unfoldable pub read_child : String → Dict String Child → Result Bytes
read_child name children = elim (plain_child name children) [
  | none ↦ err other_error
  | some content ↦ ok content
]

unfoldable pub digest_of : Json → Result String
digest_of (Json.str digest) = ok digest
digest_of _ = err type_error

-- The bytes of a plain file that has to be there.
unfoldable pub canonical_bytes : Option Bytes → Result Bytes
canonical_bytes none =
    err (artifact_error "version-controlled producer manifest is missing or unsafe")
canonical_bytes (some content) = ok content

-- What `validate` has read already.
unfoldable pub bytes_of_file : Option Bytes → Result Bytes
bytes_of_file none = err other_error
bytes_of_file (some content) = ok content

module _ (t : Tools) where
  -- What stands in the store under the digest has to be this candidate.
  unfoldable pub check_store :
      Option (Dict String Child) → String → String → String → Bytes → Result (Unit {0})
  check_store none prepared name digest manifest =
      err (artifact_error "content-addressed stage target is unsafe")
  check_store (some children) prepared name digest manifest = do
    raise_if (not (same_set (file_names children) (prepared ∷ name ∷ [])))
        (artifact_error "existing content-addressed candidate is not exact")
    artifact ← read_child prepared children
    raise_if (not (t.sha256 artifact == digest))
        (artifact_error "existing staged artifact digest mismatch")
    staged ← read_child name children
    raise_if (not (same_bytes staged manifest))
        (artifact_error "existing staged producer manifest mismatch")

  -- The disk after the copies, and the store's path.
  unfoldable pub fill_store :
      Disk → String → String → String → Bytes → Bytes → Result (Disk × String)
  fill_store disk store prepared name artifact canonical = do
    raise_if (has_file (partial store) disk)
        (artifact_error "staging partial target already exists")
    ok (publish store prepared artifact name canonical disk, store)

  unfoldable pub reuse_store :
      Disk → String → String → String → String → Bytes → Result (Disk × String)
  reuse_store disk prepared name digest store manifest = do
    check_store (folder_at store disk) prepared name digest manifest
    ok (disk, store)

  -- The end of `stage`, once the manifest's bytes are those of the canonical one.
  unfoldable pub stage_at :
      Disk → Dict String Child → String → String → String → String → Bytes → Result (Disk × String)
  stage_at disk children prepared name digest store manifest =
      if has_file store disk
      then reuse_store disk prepared name digest store manifest
      else (read_child prepared children >>= λ artifact.
          fill_store disk store prepared name artifact manifest)

  -- `stage`, of the candidate in a directory.
  unfoldable pub stage :
      Repository
      → Disk
      → String
      → Dict String Child
      → String
      → String
      → Option Bytes
      → Option Bytes
      → Result (Disk × String)
  stage repo disk store_root children version manifest_name manifest_file canonical_file = do
    manifest ← validate t repo (some children) version manifest_name manifest_file
    name ← manifest_filename version
    canonical ← canonical_bytes canonical_file
    given ← bytes_of_file manifest_file
    raise_if (not (same_bytes given canonical)) (
        artifact_error
          "producer manifest bytes differ from the version-controlled canonical manifest")
    digest ← item "preparedArtifact" manifest >>= item "sha256" >>= digest_of
    prepared ← prepared_filename version
    stage_at disk children prepared name digest (store_path store_root digest) canonical
