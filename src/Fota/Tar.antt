-- ===== src/Fota/Tar.antt =====
-- Tar archives as packaging/fota writes and reads them: `_ustar` and `_members` (vdp_family.py),
-- `_safe_member`, `_member_map` and `_member_map_bytes` (vdp_artifact.py). The formats, digests and
-- JSON texts are Python's library, taken as a parameter.
pub mod RoundTrip
pub mod Sorted
use aos_vehicle_platform.Prelude.{
  ℕ, suc, String, ◌<>◌, Bool, true, false, not, ◌&&◌, ◌||◌, Option, none, some, List, [], ◌∷◌, ◌++◌,
  ltb, ◌==◌, nat_eq, string_eq, if◌then◌else◌, Result, ok, err, Exception, other_error,
  prebuild_error, artifact_error, raise_if, ◌>>=◌, ◌>>◌,
}
use aos_vehicle_platform.Prelude.Lists.{length}
use aos_vehicle_platform.Prelude.Text.{codes, codes_le, sorted, every}
use aos_vehicle_platform.Prelude.Dict.{Dict, lookup, insert}
use aos_vehicle_platform.Python.{Json}
use aos_vehicle_platform.Fota.Bytes.{Bytes}
use aos_vehicle_platform.Fota.Paths.{
  posix_path, parent, parts_of, add_parents, rstrip, is_unsafe, is_empty,
}

pub data Kind : Type 0 where
  regular directory special : Kind

-- A `TarInfo` with its content; `extracted` is `none` where `extractfile` returns `None`.
pub record Entry : Type 0 where
  pub name : String
  pub kind : Kind
  pub mode : ℕ
  pub uid : ℕ
  pub gid : ℕ
  pub mtime : ℕ
  pub extracted : Option Bytes

-- The members of an opened archive, up to its end or to what makes the next one unreadable.
pub data Stream : Type 0 where
  archive_end : Stream
  broken : Exception → Stream
  member : Entry → Stream → Stream

pub record Tools : Type 0 where
  -- `hashlib.sha256(value).hexdigest()`
  pub sha256 : Bytes → String
  -- `json.loads(value)`, and `json.loads(value.decode("utf-8"))`
  pub loads : Bytes → Result Json
  pub loads_utf8 : Bytes → Result Json
  -- `json.dumps(value, indent=2, sort_keys=True)`, which is ASCII
  pub dumps_indent : Json → String
  -- `json.dumps(value, ensure_ascii=False, separators=(",", ":"), sort_keys=True).encode("utf-8")`
  pub dumps_canonical : Json → Result Bytes
  -- `tarfile` in the USTAR format, and a tar file opened to be read
  pub tar_write : List Entry → Result Bytes
  pub tar_read : Bytes → Stream
  -- a tar file opened to be read whatever its compression
  pub tar_read_any : Bytes → Stream
  -- `gzip`, `none` for an `OSError`
  pub gunzip : Bytes → Result (Option Bytes)
  -- `value.lower()`
  pub lower : String → String

-- `sorted(files.items())`: the keys differ, so they decide.
insert_item {ℓ} : {V : Type ℓ} → String × V → Dict String V → Dict String V
insert_item item [] = item ∷ []
insert_item (k, v) ((j, w) ∷ items) =
    let rest = (j, w) ∷ insert_item (k, v) items in
    if codes_le (codes k) (codes j) then (k, v) ∷ (j, w) ∷ items else rest

unfoldable pub sort_items {ℓ} : {V : Type ℓ} → Dict String V → Dict String V
unfolding insert_item codes_le
sort_items [] = []
sort_items (item ∷ items) = insert_item item (sort_items items)

-- `directories` once the loop over the names is done. A relative name has fewer parents than parts.
unfoldable pub directories : Dict String Bytes → List String → Option (List String)
directories [] names = some names
directories ((name, content) ∷ files) names =
    elim (add_parents (suc (length (parts_of name))) (parent (posix_path name)) names) [
      | none ↦ none
      | some names' ↦ directories files names'
    ]

unfoldable pub directory_entry : String → Entry
directory_entry name = record {
  name = name <> "/";
  kind = directory;
  mode = 0o755;
  uid = 0;
  gid = 0;
  mtime = 0;
  extracted = none;
}

-- 0755 for the entry point, 0644 for all else.
unfoldable pub file_mode : String → ℕ
file_mode name = if name == "bin/vehicle-data-provider" then 0o755 else 0o644

unfoldable pub file_entry : String × Bytes → Entry
unfolding file_mode
file_entry (name, content) = record {
  name = name;
  kind = regular;
  mode = file_mode name;
  uid = 0;
  gid = 0;
  mtime = 0;
  extracted = some content;
}

directory_entries : List String → List Entry
directory_entries [] = []
directory_entries (name ∷ names) = directory_entry name ∷ directory_entries names

file_entries : Dict String Bytes → List Entry
file_entries [] = []
file_entries (file ∷ files) = file_entry file ∷ file_entries files

-- What `_ustar` adds to its archive, in order.
unfoldable pub ustar_entries : List String → Dict String Bytes → List Entry
unfolding directory_entries file_entries sort_items sorted
ustar_entries names files = directory_entries (sorted names) ++ file_entries (sort_items files)

unsafe_member : Exception
unsafe_member = prebuild_error "source prebuild contains an unsafe member"

-- One round of the loop of `_members`.
unfoldable pub observe_member : Entry → Dict String Bytes → Result (Dict String Bytes)
unfolding unsafe_member
observe_member e observed =
    let name = rstrip e.name in
    if is_unsafe name
    then err (prebuild_error "source prebuild contains an unsafe path")
    else elim e.kind [
      | directory ↦ ok observed
      | special ↦ err unsafe_member
      | regular ↦ elim (lookup name observed) [
        | some content ↦ err unsafe_member
        | none ↦ elim e.extracted [
          | none ↦ err (prebuild_error "source prebuild member cannot be read")
          | some content ↦ ok (insert name content observed)
        ]
      ]
    ]

-- The loop of `_members`.
unfoldable pub members_from : Stream → Dict String Bytes → Result (Dict String Bytes)
unfolding observe_member
members_from archive_end observed = ok observed
members_from (broken e) observed = err e
members_from (member e stream) observed =
    observe_member e observed >>= λ observed'. members_from stream observed'

-- A character that no member's name may hold.
is_control : ℕ → Bool
is_control c = ltb c 32 || c == 127

unfoldable pub is_unsafe_member : String → Bool
unfolding is_control
is_unsafe_member name =
    is_empty name || is_unsafe name || not (every (λ c. not (is_control c)) (codes name))

-- `_safe_member`, whose message names the path.
unfoldable pub safe_member : String → Result (Unit {0})
safe_member name = raise_if (is_unsafe_member name) (artifact_error "unsafe archive path")

-- One round of the loops of `_member_map` and `_member_map_bytes`, which keep directories too.
unfoldable pub map_member :
    Entry → Dict String (Entry × Bytes) → Result (Dict String (Entry × Bytes))
map_member e observed = do
  let name = rstrip e.name
  safe_member name
  elim (lookup name observed) [
    | some known ↦ err (artifact_error ("unsafe or duplicate archive member: " <> name))
    | none ↦ elim e.kind [
      | special ↦ err (artifact_error ("unsafe or duplicate archive member: " <> name))
      | directory ↦ ok (insert name (e, []) observed)
      | regular ↦ elim e.extracted [
        | none ↦ err (artifact_error ("archive member cannot be read: " <> name))
        | some content ↦ ok (insert name (e, content) observed)
      ]
    ]
  ]

unfoldable pub map_members_from :
    Stream → Dict String (Entry × Bytes) → Result (Dict String (Entry × Bytes))
map_members_from archive_end observed = ok observed
map_members_from (broken e) observed = err e
map_members_from (member e stream) observed =
    map_member e observed >>= λ observed'. map_members_from stream observed'

module _ (t : Tools) where
  -- `_ustar`; `other_error` stands for a loop that does not end.
  unfoldable pub ustar : Dict String Bytes → Result Bytes
  unfolding directories
  ustar files = elim (directories files []) [
    | none ↦ err other_error
    | some names ↦ t.tar_write (ustar_entries names files)
  ]

  -- `_members`
  unfoldable pub members : Bytes → Result (Dict String Bytes)
  members archive = members_from (t.tar_read archive) []

  -- `_member_map_bytes`
  unfoldable pub member_map_bytes : Bytes → Result (Dict String (Entry × Bytes))
  member_map_bytes archive = map_members_from (t.tar_read archive) []

  -- `_member_map`
  unfoldable pub member_map : Bytes → Result (Dict String (Entry × Bytes))
  member_map archive = map_members_from (t.tar_read_any archive) []
