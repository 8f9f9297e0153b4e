-- ===== src/Fota/Artifact/Stage/Addressed.antt =====
-- What `stage` of packaging/fota/vdp_artifact.py leaves in the store.
use text.Mathlib.TextLemmas.{append_cancel_left}
use aos_vehicle_platform.Prelude.{
  String, ◌<>◌, ◌≡◌, ◌≢◌, refl, sym, ap, ◌∙◌, subst, not, Option, none, some, string_eq, [], Bool,
  true, false, Bool-cases, inl, inr, Result, ok, raise_if, ◌>>=◌, >>=-eq-ok, ok-injective,
}
use aos_vehicle_platform.Prelude.Dict.{Dict, insert}
use aos_vehicle_platform.Python.{Json}
use aos_vehicle_platform.Fota.Bytes.{Bytes, same_bytes}
use aos_vehicle_platform.Fota.Documents.{has_file}
use aos_vehicle_platform.Fota.Tar.{Tools}
use aos_vehicle_platform.Fota.Disk.{Child, plain, Disk, plain_child}
use aos_vehicle_platform.Fota.Disk.Laws.{IsPublished, publish-IsPublished}
use aos_vehicle_platform.Fota.Prebuild.Compose.{Repository}
use aos_vehicle_platform.Fota.Artifact.{candidate_id, prepared_filename, manifest_filename}
use aos_vehicle_platform.Fota.Artifact.Family.{item}
use aos_vehicle_platform.Fota.Artifact.Candidate.{validate}
use aos_vehicle_platform.Fota.Artifact.Candidate.Bound.{validate-children}
use aos_vehicle_platform.Fota.Artifact.Stage.{
  store_path, read_child, digest_of, canonical_bytes, bytes_of_file, stage_at, stage,
}
use aos_vehicle_platform.Fota.Artifact.Stage.Stored.{IsStored, present-IsStored, filled-IsStored}

read_child-some :
    (name : String) (children : Dict String Child) (content : Bytes)
    → plain_child name children ≡ some content
    → read_child name children ≡ ok content
unfolding read_child
read_child-some name children content h = rw (h, read_child) refl

canonical_bytes-eq :
    (file : Option Bytes) (content : Bytes)
    → canonical_bytes file ≡ ok content
    → file ≡ some content
unfolding canonical_bytes
canonical_bytes-eq none content h = cc
canonical_bytes-eq (some found) content h = ap some (ok-injective h)

digest_of-eq : (v : Json) (digest : String) → digest_of v ≡ ok digest → v ≡ Json.str digest
unfolding digest_of
digest_of-eq (Json.str s) digest h = ap Json.str (ok-injective h)
digest_of-eq Json.null digest h = cc
digest_of-eq (Json.bool b) digest h = cc
digest_of-eq (Json.int z) digest h = cc
digest_of-eq (Json.float d) digest h = cc
digest_of-eq (Json.arr vs) digest h = cc
digest_of-eq (Json.obj fs) digest h = cc

abbrev artifact_suffix : String
artifact_suffix = "-linux-arm64.unsigned.tar.gz"

abbrev manifest_suffix : String
manifest_suffix = ".manifest.json"

suffixes-differ : artifact_suffix ≢ manifest_suffix
suffixes-differ h = cc

names-differ :
    (version prepared name : String)
    → prepared_filename version ≡ ok prepared
    → manifest_filename version ≡ ok name
    → prepared ≢ name
unfolding prepared_filename manifest_filename
names-differ version prepared name h h' e =
    let (id, is, made) = >>=-eq-ok (candidate_id version) _ h in
    let (id', is', made') = >>=-eq-ok (candidate_id version) _ h' in
    suffixes-differ (
      append_cancel_left id artifact_suffix manifest_suffix (
        ok-injective made
        ∙ e
        ∙ sym (ok-injective made')
        ∙ ap (λ i. i <> manifest_suffix) (ok-injective (sym is' ∙ is))))

digest-eq :
    (r : Result Json) (sha256 digest : String)
    → r ≡ ok (Json.str sha256)
    → (r >>= digest_of) ≡ ok digest
    → sha256 ≡ digest
unfolding digest_of
digest-eq r sha256 digest is read = ok-injective (ap (λ v. v >>= digest_of) (sym is) ∙ read)

true-ne-false : ◌≢◌ {A = Bool} true false
true-ne-false h = cc

module _ (t : Tools) where
  -- The store's directory is there, and the disk has changed only if it was not.
  pub record IsStaged (disk disk' : Disk) (store store' prepared name digest : String)
      (artifact canonical : Bytes) : Type 0 where
    pub addressed_at : store' ≡ store
    pub reused : has_file store disk ≡ true → disk' ≡ disk
    pub published :
        has_file store disk ≡ false
        → IsPublished disk disk' store
            (insert name (plain canonical) (insert prepared (plain artifact) []))
    pub stored : IsStored t disk' store prepared name digest canonical

  stage_at-IsStaged :
      (disk disk' : Disk) (children : Dict String Child)
      (prepared name digest store store' : String) (artifact canonical : Bytes)
      → prepared ≢ name
      → plain_child prepared children ≡ some artifact
      → t.sha256 artifact ≡ digest
      → stage_at t disk children prepared name digest store canonical ≡ ok (disk', store')
      → IsStaged disk disk' store store' prepared name digest artifact canonical
  unfolding stage_at
  stage_at-IsStaged disk disk' children prepared name digest store store' artifact canonical differ
        has addressed h =
      elim (Bool-cases (has_file store disk)) [
        | inl there ↦
            let (here, same, stored) =
              present-IsStored t disk disk' prepared name digest store store' canonical
                (sym (rw (there, stage_at) refl) ∙ h) in
            record {
              addressed_at = here;
              reused = λ present. same;
              published = λ absent. absurd (true-ne-false (sym there ∙ absent));
              stored = stored;
            }
        | inr free ↦
            let (here, same, stored) =
              filled-IsStored t disk disk' prepared name digest store store' artifact canonical
                differ addressed
                (sym (rw (free, read_child-some prepared children artifact has, stage_at) refl)
                  ∙ h) in
            record {
              addressed_at = here;
              reused = λ present. absurd (true-ne-false (sym present ∙ free));
              published = λ absent.
                  subst
                    (λ d.
                      IsPublished disk d store
                        (insert name (plain canonical) (insert prepared (plain artifact) [])))
                    (sym same) (publish-IsPublished store prepared artifact name canonical disk);
              stored = stored;
            }
      ]

  -- When `stage` returns, the path that it returns is the one of the prepared artifact's SHA-256 digest
  -- in the store. A directory stands there that has an artifact with this digest under the version's
  -- prepared name, and the version-controlled manifest byte for byte under the manifest's name. The disk
  -- is unchanged if something stood there before. Otherwise a directory of exactly the candidate's
  -- artifact and the manifest was published there: the directories above it are there, where no file or
  -- link stood and but for the one that its path begins at, those that were there have what they had, and
  -- every path elsewhere is as it was.
  pub stage-IsStaged :
      (repo : Repository) (disk : Disk) (store_root : String) (children : Dict String Child)
      (version manifest_name : String) (manifest_file canonical_file : Option Bytes) (disk' : Disk)
      (store : String)
      → stage t repo disk store_root children version manifest_name manifest_file canonical_file
        ≡ ok (disk', store)
      → (artifact : Bytes) × (canonical : Bytes) × (prepared : String) × (name : String)
        × (prepared_filename version ≡ ok prepared)
        × (manifest_filename version ≡ ok name)
        × (plain_child prepared children ≡ some artifact)
        × (canonical_file ≡ some canonical)
        × IsStaged disk disk'
            (store_path store_root (t.sha256 artifact))
            store
            prepared
            name
            (t.sha256 artifact)
            artifact
            canonical
  unfolding stage
  stage-IsStaged repo disk store_root children version manifest_name manifest_file canonical_file
        disk' store h =
      let (manifest, valid, h) =
        >>=-eq-ok (validate t repo (some children) version manifest_name manifest_file) _ h in
      let (name, is_name, h) = >>=-eq-ok (manifest_filename version) _ h in
      let (canonical, is_canonical, h) = >>=-eq-ok (canonical_bytes canonical_file) _ h in
      let (given, _, h) = >>=-eq-ok (bytes_of_file manifest_file) _ h in
      let (_, _, h) = >>=-eq-ok (raise_if (not (same_bytes given canonical)) _) _ h in
      let (digest, read, h) =
        >>=-eq-ok (item "preparedArtifact" manifest >>= item "sha256" >>= digest_of) _ h in
      let (prepared, is_prepared, h) = >>=-eq-ok (prepared_filename version) _ h in
      let bound =
        validate-children t repo children version manifest_name manifest_file manifest valid in
      let artifact = bound.candidate.artifact in
      let addressed : t.sha256 artifact ≡ digest =
        digest-eq (item "preparedArtifact" manifest >>= item "sha256") (t.sha256 artifact) digest
          bound.artifact_digest read in
      let has : plain_child prepared children ≡ some artifact =
        ap (λ n. plain_child n children)
          (ok-injective (sym is_prepared ∙ bound.files.is_artifact_name))
        ∙ bound.files.artifact_file in
      (
        artifact,
        canonical,
        prepared,
        name,
        is_prepared,
        is_name,
        has,
        canonical_bytes-eq canonical_file canonical is_canonical,
        subst
            (λ d.
              IsStaged disk disk' (store_path store_root d) store prepared name d artifact
                canonical)
            (sym addressed)
            (stage_at-IsStaged disk disk' children prepared name digest
              (store_path store_root digest) store artifact canonical
              (names-differ version prepared name is_prepared is_name) has addressed h),
      )
