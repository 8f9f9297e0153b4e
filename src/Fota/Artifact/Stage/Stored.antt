-- ===== src/Fota/Artifact/Stage/Stored.antt =====
-- What stands in the content-addressed store of packaging/fota/vdp_artifact.py.
use aos_vehicle_platform.Prelude.{
  not_raised, String, ◌≡◌, ◌≢◌, refl, sym, ap, ◌∙◌, subst, not, Option, none, some, [], ◌∷◌, arith,
  ◌==◌, string_eq, ok, raise_if, >>=-eq-ok, ok-injective,
}
use aos_vehicle_platform.Prelude.Dict.{Dict, lookup, insert, lookup-insert_eq, lookup-insert_ne}
use aos_vehicle_platform.Python.{same_set}
use aos_vehicle_platform.Fota.Bytes.{Bytes, same_bytes, same_bytes-eq}
use aos_vehicle_platform.Fota.Documents.{has_file, file_names}
use aos_vehicle_platform.Fota.Tar.{Tools}
use aos_vehicle_platform.Fota.Disk.{Child, plain, Disk, plain_child, folder_at, partial, publish}
use aos_vehicle_platform.Fota.Disk.Laws.{folder_at-publish}
use aos_vehicle_platform.Fota.Artifact.Stage.{read_child, check_store, fill_store, reuse_store}

read_child-eq :
    (name : String) (children : Dict String Child) (content : Bytes)
    → read_child name children ≡ ok content
    → plain_child name children ≡ some content
unfolding read_child
read_child-eq name children content h = ground arith

plain_child-eq :
    (name : String) (content : Bytes) (children : Dict String Child)
    → lookup name children ≡ some (plain content)
    → plain_child name children ≡ some content
unfolding plain_child
plain_child-eq name content children h = rw (h, plain_child) refl

module _ (t : Tools) where
  -- In the store stand the artifact whose digest names it, and the canonical manifest.
  pub record IsStored (disk : Disk) (store prepared name digest : String) (canonical : Bytes)
      : Type 0 where
    pub children : Dict String Child
    pub present : folder_at store disk ≡ some children
    pub artifact : Bytes
    pub artifact_stored : plain_child prepared children ≡ some artifact
    pub addressed : t.sha256 artifact ≡ digest
    pub manifest_stored : plain_child name children ≡ some canonical

  check_store-IsStored :
      (disk : Disk) (found : Option (Dict String Child)) (store prepared name digest : String)
      (canonical : Bytes)
      → folder_at store disk ≡ found
      → check_store t found prepared name digest canonical ≡ ok tt
      → IsStored disk store prepared name digest canonical
  unfolding check_store
  check_store-IsStored disk none store prepared name digest canonical is h = cc
  check_store-IsStored disk (some children) store prepared name digest canonical is h =
      let (_, _, h) =
        >>=-eq-ok (raise_if (not (same_set (file_names children) (prepared ∷ name ∷ []))) _) _ h in
      let (artifact, has_artifact, h) = >>=-eq-ok (read_child prepared children) _ h in
      let (_, addressed, h) = >>=-eq-ok (raise_if (not (t.sha256 artifact == digest)) _) _ h in
      let (staged, has_manifest, same) = >>=-eq-ok (read_child name children) _ h in
      record {
        children = children;
        present = is;
        artifact = artifact;
        artifact_stored = read_child-eq prepared children artifact has_artifact;
        addressed = ground (arith, not_raised (t.sha256 artifact == digest) _ addressed);
        manifest_stored =
            read_child-eq name children staged has_manifest
            ∙ ap some
                (same_bytes-eq staged canonical (not_raised (same_bytes staged canonical) _ same));
      }

  publish-IsStored :
      (disk : Disk) (store prepared name digest : String) (artifact canonical : Bytes)
      → prepared ≢ name
      → t.sha256 artifact ≡ digest
      → IsStored
          (publish store prepared artifact name canonical disk)
          store
          prepared
          name
          digest
          canonical
  publish-IsStored disk store prepared name digest artifact canonical differ addressed = record {
    children = insert name (plain canonical) (insert prepared (plain artifact) []);
    present = folder_at-publish store prepared artifact name canonical disk;
    artifact = artifact;
    artifact_stored = plain_child-eq prepared artifact _ (
        lookup-insert_ne prepared name (plain canonical) (insert prepared (plain artifact) [])
          differ
        ∙ lookup-insert_eq prepared prepared (plain artifact) [] refl);
    addressed = addressed;
    manifest_stored =
        plain_child-eq name canonical _
          (lookup-insert_eq name name (plain canonical) (insert prepared (plain artifact) []) refl);
  }

  -- What stands in the store already stays as it is.
  pub present-IsStored :
      (disk disk' : Disk) (prepared name digest store store' : String) (canonical : Bytes)
      → reuse_store t disk prepared name digest store canonical ≡ ok (disk', store')
      → (store' ≡ store) × (disk' ≡ disk) × IsStored disk' store prepared name digest canonical
  unfolding reuse_store
  present-IsStored disk disk' prepared name digest store store' canonical h =
      let (_, checked, same) =
        >>=-eq-ok (check_store t (folder_at store disk) prepared name digest canonical) _ h in
      let e : (disk, store) ≡ (disk', store') = ok-injective same in
      (
        sym (ap (λ (p : Disk × String). p.1) e),
        sym (ap (λ (p : Disk × String). p.0) e),
        subst (λ d. IsStored d store prepared name digest canonical)
            (ap (λ (p : Disk × String). p.0) e)
            (check_store-IsStored disk (folder_at store disk) store prepared name digest canonical
              refl checked),
      )

  pub filled-IsStored :
      (disk disk' : Disk) (prepared name digest store store' : String) (artifact canonical : Bytes)
      → prepared ≢ name
      → t.sha256 artifact ≡ digest
      → fill_store t disk store prepared name artifact canonical ≡ ok (disk', store')
      → (store' ≡ store)
        × (disk' ≡ publish store prepared artifact name canonical disk)
        × IsStored disk' store prepared name digest canonical
  unfolding fill_store
  filled-IsStored disk disk' prepared name digest store store' artifact canonical differ addressed
        h =
      let (_, _, same) = >>=-eq-ok (raise_if (has_file (partial store) disk) _) _ h in
      let e : (publish store prepared artifact name canonical disk, store) ≡ (disk', store') =
        ok-injective same in
      (
        sym (ap (λ (p : Disk × String). p.1) e),
        sym (ap (λ (p : Disk × String). p.0) e),
        subst (λ d. IsStored d store prepared name digest canonical)
            (ap (λ (p : Disk × String). p.0) e)
            (publish-IsStored disk store prepared name digest artifact canonical differ addressed),
      )
