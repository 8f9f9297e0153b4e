-- ===== src/Fota/Disk.antt =====
-- The paths on a disk, as packaging/fota looks at them and writes directories.
pub mod Laws
pub mod Way
use aos_vehicle_platform.Prelude.{
  String, ◌<>◌, Option, none, some, List, [], ◌∷◌, string_eq, ◌==◌, if◌then◌else◌,
}
use aos_vehicle_platform.Prelude.Dict.{Dict, lookup, insert, erase}
use aos_vehicle_platform.Fota.Bytes.{Bytes}
use aos_vehicle_platform.Fota.Paths.{is_absolute, parts_of}

-- What stands in a directory: `other` is a symbolic link, a directory or a special file.
pub data Child : Type 0 where
  plain : Bytes → Child
  other : Child

-- What stands at a path: `leaf` is a file, or a symbolic link, broken or not.
pub data Node : Type 0 where
  folder : Dict String Child → Node
  leaf : Node

abbrev pub Disk : Type 0
Disk = Dict String Node

-- `(directory / name).write_bytes(content)`
unfoldable pub write_child : String → String → Bytes → Disk → Disk
write_child directory name content disk = elim (lookup directory disk) [
  | none ↦ disk
  | some node ↦ elim node [
    | leaf ↦ disk
    | folder children ↦ insert directory (folder (insert name (plain content) children)) disk
  ]
]

-- `os.replace(source, target)`, where nothing stands at the target.
unfoldable pub replace : String → String → Disk → Disk
replace source target disk = elim (lookup source disk) [
  | none ↦ disk
  | some node ↦ insert target node (erase source disk)
]

-- `path.is_file() and not path.is_symlink()`, with the file's bytes.
unfoldable pub plain_child : String → Dict String Child → Option Bytes
plain_child name children = elim (lookup name children) [
  | none ↦ none
  | some child ↦ elim child [ plain content ↦ some content | other ↦ none ]
]

-- `path.is_dir() and not path.is_symlink()`, with what stands in it.
unfoldable pub folder_at : String → Disk → Option (Dict String Child)
folder_at path disk = elim (lookup path disk) [
  | none ↦ none
  | some node ↦ elim node [ folder children ↦ some children | leaf ↦ none ]
]

-- `path.with_name(path.name + ".partial")`
abbrev pub partial : String → String
partial output = output <> ".partial"

-- `directory / name`, of a directory's normalised text.
unfoldable pub child_path : String → String → String
child_path directory name =
    if directory == "/"
    then "/" <> name
    else if directory == "."
    then name
    else directory <> "/" <> name

-- A directory that is listed in what it stands in. What is listed already stays as it is.
unfoldable pub list_child : String → String → Disk → Disk
list_child directory name disk = elim (lookup directory disk) [
  | none ↦ disk
  | some node ↦ elim node [
    | leaf ↦ disk
    | folder children ↦ elim (lookup name children) [
      | some child ↦ disk
      | none ↦ insert directory (folder (insert name other children)) disk
    ]
  ]
]

-- A directory that is made unless something stands there.
unfoldable pub make_missing : String → Disk → Disk
make_missing path disk = elim (lookup path disk) [
  | none ↦ insert path (folder []) disk
  | some node ↦ disk
]

-- From a directory on, down to the last part, which is listed and not made.
unfoldable pub make_way_from : String → List String → Disk → Disk
make_way_from directory [] disk = disk
make_way_from directory (part ∷ []) disk = list_child directory part disk
make_way_from directory (part ∷ next ∷ parts) disk =
    make_way_from (child_path directory part) (next ∷ parts)
      (make_missing (child_path directory part) (list_child directory part disk))

-- The directory that a path begins at.
unfoldable pub anchor : String → String
anchor path = if is_absolute path then "/" else "."

-- `mkdir(parents=True)` above the target, with each directory listed in its own, the target too.
unfoldable pub make_way : String → Disk → Disk
make_way target disk = make_way_from (anchor target) (parts_of target) disk

-- A directory of two files, made under its partial name and then renamed. Nothing stands at either.
unfoldable pub publish : String → String → Bytes → String → Bytes → Disk → Disk
publish target first first_content second second_content disk = replace (partial target) target (
    write_child (partial target) second second_content (
      write_child (partial target) first first_content
        (insert (partial target) (folder []) (make_way target disk))))
