-- ===== src/Fota/Prebuild/Output.antt =====
-- `prepare` and `validate_directory` of packaging/fota/vdp_family.py, over the paths on a disk.
use aos_vehicle_platform.Prelude.{
  String, ◌<>◌, not, none, some, List, [], ◌∷◌, ◌++◌, string_eq, Result, ok, err, prebuild_error,
  raise_if, ◌>>=◌, ◌>>◌,
}
use aos_vehicle_platform.Prelude.Dict.{Dict}
use aos_vehicle_platform.Python.{Json, get_or_null, is_str}
use aos_vehicle_platform.Fota.Bytes.{Bytes}
use aos_vehicle_platform.Fota.Disk.{Child, Disk, plain_child, folder_at, partial, publish}
use aos_vehicle_platform.Fota.Documents.{as_object, object, has_file}
use aos_vehicle_platform.Fota.Tar.{Tools}
use aos_vehicle_platform.Fota.Prebuild.{validate_bytes}
use aos_vehicle_platform.Fota.Prebuild.Compose.{Repository, compose, indented_json}

unfoldable pub string_of : Json → Result String
string_of (Json.str text) = ok text
string_of _ = err (prebuild_error "source revision is missing")

module _ (t : Tools) where
  -- `summary`
  unfoldable pub summary_of : List (String × Json) → Bytes → Json
  summary_of prebuild archive =
      object (prebuild ++ ("sourcePrebuildSha256", Json.str (t.sha256 archive)) ∷ [])

  -- The disk after the writes of `prepare`.
  unfoldable pub written_output : String → List (String × Json) → Bytes → Disk → Disk
  written_output output prebuild archive disk =
      publish output "source-prebuild.tar" archive "prebuild.json"
        (indented_json t (summary_of prebuild archive)) disk

  -- `prepare`. An error leaves the disk as it was.
  unfoldable pub prepare : Repository → Disk → String → String → String → Result Disk
  prepare repo disk output version revision = do
    raise_if (has_file output disk) (prebuild_error ("output already exists: " <> output))
    (archive, prebuild) ← compose t repo version revision
    raise_if (has_file (partial output) disk)
        (prebuild_error ("temporary output already exists: " <> partial output))
    ok (written_output output prebuild archive disk)

  -- The checks once the archive and the summary are read.
  unfoldable pub check_summary : Bytes → Bytes → String → Result (Unit {0})
  check_summary archive summary_bytes version = do
    summary ← t.loads_utf8 summary_bytes >>= as_object
    raise_if (not (is_str (get_or_null "sourcePrebuildSha256" summary) (t.sha256 archive)))
        (prebuild_error "source prebuild archive digest mismatch")
    revision ← string_of (get_or_null "sourceRevision" summary)
    validate_bytes t archive version revision

  unfoldable pub check_folder : Dict String Child → String → Result (Unit {0})
  check_folder children version = elim (plain_child "source-prebuild.tar" children) [
    | none ↦ err (prebuild_error "source prebuild archive is missing")
    | some archive ↦ elim (plain_child "prebuild.json" children) [
      | none ↦ err (prebuild_error "source prebuild summary is missing")
      | some summary ↦ check_summary archive summary version
    ]
  ]

  -- `validate_directory`
  unfoldable pub validate_directory : Disk → String → String → Result (Unit {0})
  validate_directory disk output version = elim (folder_at output disk) [
    | none ↦ err (prebuild_error "source prebuild root is unsafe")
    | some children ↦ check_folder children version
  ]
