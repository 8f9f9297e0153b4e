-- ===== src/Fota/Prebuild/Prepared.antt =====
-- What `prepare` writes, `validate_directory` accepts.
use aos_vehicle_platform.Prelude.{
  String, ◌≡◌, refl, subst, true, not, none, List, [], ◌∷◌, ◌++◌, arith, string_eq, contains, ok,
  raise_if, >>=-eq-ok, ok-injective,
}
use aos_vehicle_platform.Prelude.Dict.{Dict, lookup, insert}
use aos_vehicle_platform.Python.{Json, Fields, get_or_null, is_str}
use aos_vehicle_platform.Fota.Bytes.{Bytes}
use aos_vehicle_platform.Fota.Documents.{as_object, object, has_file, fields_of, content_of}
use aos_vehicle_platform.Fota.Tar.{Tools, ustar}
use aos_vehicle_platform.Fota.Family.{versions}
use aos_vehicle_platform.Fota.Prebuild.{validate_bytes}
use aos_vehicle_platform.Fota.Prebuild.Compose.{
  Repository, compose, prebuild_entries, compose_archive, indented_json, is_revision,
  source_payload,
}
use aos_vehicle_platform.Fota.Disk.{Child, plain, Disk, plain_child, partial}
use aos_vehicle_platform.Fota.Disk.Laws.{
  folder_at-publish, publish-IsPublished, IsPublished, HasClearWay, HasWay, publish-HasWay,
}
use aos_vehicle_platform.Fota.Prebuild.Output.{
  string_of, summary_of, written_output, prepare, check_summary, check_folder, validate_directory,
}

-- A dict that was written as JSON and read again has the same value under every key.
pub record ReadsBack (t : Tools) (original : Fields) (written : Bytes) : Type 0 where
  pub fields : Fields
  pub read : t.loads_utf8 written ≡ ok (Json.obj fields)
  pub same : (key : String) → get_or_null key fields ≡ get_or_null key original

is_str_self : (s : String) → is_str (Json.str s) s ≡ true
unfolding is_str
is_str_self s = ground arith

module _ (t : Tools) where
  abbrev pub summary_fields : List (String × Json) → Bytes → Fields
  summary_fields prebuild archive =
      fields_of (prebuild ++ ("sourcePrebuildSha256", Json.str (t.sha256 archive)) ∷ [])

  prebuild_entries-revision :
      (version revision manifest_sha lock_sha : String) (files : Dict String Bytes)
      (archive : Bytes)
      → get_or_null "sourceRevision"
          (summary_fields (prebuild_entries t version revision manifest_sha lock_sha files) archive)
        ≡ Json.str revision
  unfolding prebuild_entries get_or_null fields_of string_eq
  prebuild_entries-revision version revision manifest_sha lock_sha files archive = refl

  prebuild_entries-digest :
      (version revision manifest_sha lock_sha : String) (files : Dict String Bytes)
      (archive : Bytes)
      → get_or_null "sourcePrebuildSha256"
          (summary_fields (prebuild_entries t version revision manifest_sha lock_sha files) archive)
        ≡ Json.str (t.sha256 archive)
  unfolding prebuild_entries get_or_null fields_of string_eq
  prebuild_entries-digest version revision manifest_sha lock_sha files archive = refl

  -- A composed archive was validated, and its document with the archive's digest names both.
  record IsSummarised (version revision : String) (made : Bytes × List (String × Json))
      : Type 0 where
    valid : validate_bytes t made.0 version revision ≡ ok tt
    source : get_or_null "sourceRevision" (summary_fields made.1 made.0) ≡ Json.str revision
    digest :
        get_or_null "sourcePrebuildSha256" (summary_fields made.1 made.0)
        ≡ Json.str (t.sha256 made.0)

  compose_archive-IsSummarised :
      (version revision manifest_sha lock_sha : String) (files : Dict String Bytes)
      (made : Bytes × List (String × Json))
      → compose_archive t version revision manifest_sha lock_sha files ≡ ok made
      → IsSummarised version revision made
  unfolding compose_archive
  compose_archive-IsSummarised version revision manifest_sha lock_sha files made h =
      let (archive, _, h') = >>=-eq-ok (ustar t _) _ h in
      let (_, valid, h'') = >>=-eq-ok (validate_bytes t archive version revision) _ h' in
      subst (IsSummarised version revision) (ok-injective h'') (record {
        valid = valid;
        source = prebuild_entries-revision version revision manifest_sha lock_sha files archive;
        digest = prebuild_entries-digest version revision manifest_sha lock_sha files archive;
      })

  compose-IsSummarised :
      (repo : Repository) (version revision : String) (made : Bytes × List (String × Json))
      → compose t repo version revision ≡ ok made
      → IsSummarised version revision made
  unfolding compose
  compose-IsSummarised repo version revision made h =
      let (_, _, h) = >>=-eq-ok (raise_if (not (contains versions version)) _) _ h in
      let (_, _, h) = >>=-eq-ok (raise_if (not (is_revision revision)) _) _ h in
      let (payload, _, h) = >>=-eq-ok (source_payload repo version) _ h in
      let (raw, _, h) = >>=-eq-ok (content_of "config/capability-manifest.json" payload) _ h in
      let (lock, _, h) = >>=-eq-ok (repo "packaging/fota/requirements-arm64.txt") _ h in
      compose_archive-IsSummarised version revision _ _ _ made h

  abbrev written_children : List (String × Json) → Bytes → Dict String Child
  written_children prebuild archive =
      insert "prebuild.json" (plain (indented_json t (summary_of t prebuild archive)))
        (insert "source-prebuild.tar" (plain archive) [])

  check_summary-ok :
      (version revision : String) (made : Bytes × List (String × Json)) (written : Bytes)
      → ReadsBack t (summary_fields made.1 made.0) written
      → IsSummarised version revision made
      → check_summary t made.0 written version ≡ ok tt
  unfolding check_summary as_object summary_of object string_of
  check_summary-ok version revision made written back m =
      rw
        (
          back.read,
          back.same "sourcePrebuildSha256",
          m.digest,
          back.same "sourceRevision",
          m.source,
          is_str_self (t.sha256 made.0),
        )
        m.valid

  check_folder-written :
      (version revision : String) (made : Bytes × List (String × Json))
      → ReadsBack t (summary_fields made.1 made.0) (indented_json t (summary_of t made.1 made.0))
      → IsSummarised version revision made
      → check_folder t (written_children made.1 made.0) version ≡ ok tt
  unfolding check_folder plain_child lookup insert string_eq
  check_folder-written version revision made back m =
      check_summary-ok version revision made _ back m

  -- Where nothing stands at the output and at its partial name, no file or link stands where a
  -- directory above it is to be, and `compose` returns, `prepare` returns too: at the output stands a
  -- directory of the archive and its summary, and nothing else, which `validate_directory` accepts. The
  -- directories above the output, but for the one that its path begins at, are there, and those that
  -- were there have what they had; a path that is neither the output, its partial name nor above it is
  -- as it was. The summary that was written has to be read back with the same value under each key.
  pub prepare-validate_directory :
      (repo : Repository) (disk : Disk) (output version revision : String) (archive : Bytes)
      (prebuild : List (String × Json))
      → compose t repo version revision ≡ ok (archive, prebuild)
      → lookup output disk ≡ none
      → lookup (partial output) disk ≡ none
      → HasClearWay output disk
      → ReadsBack t
          (summary_fields prebuild archive)
          (indented_json t (summary_of t prebuild archive))
      → (disk' : Disk) × (prepare t repo disk output version revision ≡ ok disk')
        × (validate_directory t disk' output version ≡ ok tt)
        × IsPublished disk disk' output (written_children prebuild archive)
        × HasWay output disk'
  unfolding prepare validate_directory has_file written_output
  prepare-validate_directory repo disk output version revision archive prebuild made free free'
        clear back =
      (
        written_output t output prebuild archive disk,
        rw (free, made, free', has_file) refl,
        rw
            (
              folder_at-publish output "source-prebuild.tar" archive "prebuild.json" _ disk,
              validate_directory,
              written_output,
            )
            (check_folder-written version revision (archive, prebuild) back
              (compose-IsSummarised repo version revision (archive, prebuild) made)),
        publish-IsPublished output "source-prebuild.tar" archive "prebuild.json" _ disk,
        publish-HasWay output "source-prebuild.tar" archive "prebuild.json" _ disk clear,
      )
