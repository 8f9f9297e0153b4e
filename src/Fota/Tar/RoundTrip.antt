-- ===== src/Fota/Tar/RoundTrip.antt =====
-- `_members` reads back what `_ustar` wrote.
use mathlib.Core.List.{append_assoc, append-nil}
use aos_vehicle_platform.Prelude.{
  ◌-◌, String, ◌<>◌, ◌≡◌, refl, sym, ap, ◌∙◌, false, none, some, List, [], ◌∷◌, ◌++◌, arith, ok,
  string_eq,
}
use aos_vehicle_platform.Prelude.Lists.{length, All}
use aos_vehicle_platform.Prelude.Text.{sorted}
use aos_vehicle_platform.Prelude.Dict.{Dict, lookup, insert, lookup-insert_ne}
use aos_vehicle_platform.Fota.Bytes.{Bytes}
use aos_vehicle_platform.Fota.Paths.{parts_of, rstrip, is_unsafe, drop_final}
use aos_vehicle_platform.Fota.Paths.Laws.{is_unsafe-relative, is_unsafe-rstrip, is_unsafe-slash}
use aos_vehicle_platform.Fota.Paths.Parents.{IsSafe, climb, parents-All, add_parents_terminates}
use aos_vehicle_platform.Fota.Tar.{
  Kind, regular, directory, special, Entry, Stream, archive_end, member, Tools, sort_items,
  directories, directory_entry, file_entry, directory_entries, file_entries, ustar_entries,
  observe_member, members_from, ustar, members,
}
use aos_vehicle_platform.Fota.Tar.Sorted.{
  Distinct, sort_items-All, sort_items-Distinct, sorted-All, lookup-cons_none,
}

-- `tarfile` drops the slash that marks a directory.
read_name : Kind → String → String
read_name directory name = rstrip name
read_name regular name = name
read_name special name = name

-- The members of an archive that was written from these.
unfoldable pub read_back : List Entry → Stream
unfolding read_name
read_back [] = archive_end
read_back (e ∷ es) = member (record e { name = read_name e.kind e.name }) (read_back es)

-- The parents of every name, as the loop leaves them.
unfoldable pub all_parents : Dict String Bytes → List String → List String
all_parents [] names = names
all_parents ((name, content) ∷ files) names =
    all_parents files (climb (length (parts_of name) - 1) (drop_final (parts_of name)) names)

-- A name of a file that `_members` takes: relative, with no `..` and no slash at its end.
pub record IsFile (file : String × Bytes) : Type 0 where
  pub safe : is_unsafe file.0 ≡ false
  pub stripped : rstrip file.0 ≡ file.0

directories_lem :
    (files : Dict String Bytes) (names : List String)
    → All IsFile files
    → directories files names ≡ some (all_parents files names)
unfolding directories all_parents
directories_lem [] names h = refl
directories_lem ((name, content) ∷ files) names h =
    rw
      (
        add_parents_terminates name (length (parts_of name)) names
            (is_unsafe-relative name h.0.safe) (omega arith),
        directories,
      )
      (directories_lem files (climb (length (parts_of name) - 1) (drop_final (parts_of name)) names)
        h.1)

all_parents-All :
    (files : Dict String Bytes) (names : List String)
    → All IsFile files
    → All IsSafe names
    → All IsSafe (all_parents files names)
unfolding all_parents
all_parents-All [] names h safe = safe
all_parents-All ((name, content) ∷ files) names h safe =
    all_parents-All files _ h.1 (parents-All name names h.0.safe safe)

observe_member-directory :
    (name : String) (observed : Dict String Bytes)
    → IsSafe name
    → observe_member (record (directory_entry name) { name = rstrip (name <> "/") }) observed
      ≡ ok observed
unfolding observe_member directory_entry
observe_member-directory name observed h =
    rw
      (is_unsafe-rstrip (rstrip (name <> "/"))
        (is_unsafe-rstrip (name <> "/") (is_unsafe-slash name h.named h.safe)))
      refl

-- Directories are passed over.
members_from-directories :
    (names : List String) (es : List Entry) (observed : Dict String Bytes)
    → All IsSafe names
    → members_from (read_back (directory_entries names ++ es)) observed
      ≡ members_from (read_back es) observed
unfolding directory_entries directory_entry read_back read_name members_from
members_from-directories [] es observed h = refl
members_from-directories (name ∷ names) es observed h =
    rw (observe_member-directory name observed h.0) (members_from-directories names es observed h.1)

insert_absent :
    (k : String) (v : Bytes) (d : Dict String Bytes)
    → lookup k d ≡ none
    → insert k v d ≡ d ++ (k, v) ∷ []
unfolding insert lookup
insert_absent k v [] h = refl
insert_absent k v ((j, w) ∷ d) h = ground (arith, insert_absent k v d)

-- No key of `files` is in `d`.
Apart : Dict String Bytes → Dict String Bytes → Type 0
Apart d [] = Unit
Apart d ((k, v) ∷ files) = (lookup k d ≡ none) × Apart d files

Apart-insert :
    (k : String) (v : Bytes) (d files : Dict String Bytes)
    → lookup k files ≡ none
    → Apart d files
    → Apart (insert k v d) files
unfolding Apart
Apart-insert k v d [] h hs = tt
Apart-insert k v d ((j, w) ∷ files) h hs =
    let (other, rest) = lookup-cons_none k j w files h in
    (lookup-insert_ne j k v d (λ e. other (sym e)) ∙ hs.0, Apart-insert k v d files rest hs.1)

observe_member-file :
    (k : String) (v : Bytes) (observed : Dict String Bytes)
    → IsFile (k, v)
    → lookup k observed ≡ none
    → observe_member (file_entry (k, v)) observed ≡ ok (insert k v observed)
unfolding observe_member file_entry
observe_member-file k v observed h absent =
    rw (h.stripped, h.safe, absent) (ap (λ n. ok (insert n v observed)) h.stripped)

-- Files are taken in their order.
members_from-files :
    (files observed : Dict String Bytes)
    → All IsFile files
    → Distinct files
    → Apart observed files
    → members_from (read_back (file_entries files)) observed ≡ ok (observed ++ files)
unfolding file_entries file_entry read_back read_name members_from Apart
members_from-files [] observed h d a = ap ok (sym (append-nil observed))
members_from-files ((k, v) ∷ files) observed h d a = rw (observe_member-file k v observed h.0 a.0) (
    members_from-files files (insert k v observed) h.1 d.1 (Apart-insert k v observed files d.0 a.1)
    ∙ ap ok (
        ap (λ o. o ++ files) (insert_absent k v observed a.0)
        ∙ append_assoc observed ((k, v) ∷ []) files))

Apart-nil : (files : Dict String Bytes) → Apart [] files
unfolding Apart lookup
Apart-nil [] = tt
Apart-nil ((k, v) ∷ files) = (refl, Apart-nil files)

-- What `_ustar` puts into the archive of files whose names are relative.
unfoldable pub written : Dict String Bytes → List Entry
written files = ustar_entries (all_parents files []) files

module _ (t : Tools) where
  -- Of files under distinct relative names, with no `..` in them, `_ustar` writes an archive from
  -- which `_members` reads the same files, in their order, where `tarfile` writes these members and
  -- reads back what it wrote, directories without their slash. The loops over the parents end.
  pub members-ustar :
      (files : Dict String Bytes) (archive : Bytes)
      → All IsFile files
      → Distinct files
      → t.tar_write (written files) ≡ ok archive
      → t.tar_read archive ≡ read_back (written files)
      → (ustar t files ≡ ok archive) × (members t archive ≡ ok (sort_items files))
  unfolding ustar members written ustar_entries
  members-ustar files archive h d write read = (
    rw (directories_lem files [] h, ustar) write,
    ap (λ stream. members_from stream []) read
        ∙ members_from-directories (sorted (all_parents files [])) (file_entries (sort_items files))
            [] (sorted-All IsSafe (all_parents files []) (all_parents-All files [] h tt))
        ∙ members_from-files (sort_items files) [] (sort_items-All IsFile files h)
            (sort_items-Distinct files d) (Apart-nil (sort_items files)),
  )
