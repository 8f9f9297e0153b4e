-- ===== src/Fota/Prebuild/Valid.antt =====
-- What `validate_bytes` of packaging/fota/vdp_family.py accepts.
use aos_vehicle_platform.Prelude.{
  String, ◌≡◌, sym, ap, ◌∙◌, Bool, true, false, not, some, [], ◌∷◌, arith, ◌==◌, string_eq, ok,
  raise_if, ◌>>=◌, >>=-eq-ok,
}
use aos_vehicle_platform.Prelude.Lists.{All}
use aos_vehicle_platform.Prelude.Dict.{Dict, lookup}
use aos_vehicle_platform.Python.{Json, Items, Fields, get_or_null, is_subset}
use aos_vehicle_platform.Fota.Bytes.{Bytes, any_occurs}
use aos_vehicle_platform.Fota.Documents.{content_of, has_file, file_names, differs}
use aos_vehicle_platform.Fota.Family.{check_releases, advisory_module}
use aos_vehicle_platform.Fota.Tar.{Tools, sort_items, members}
use aos_vehicle_platform.Fota.Prebuild.{
  forbidden, check_layout, check_forbidden, check_documents, listed, expected_source_files,
  validate_files, validate_bytes, required,
}
use aos_vehicle_platform.Fota.Prebuild.Listed.{Records, is_objects-Records}
use aos_vehicle_platform.Fota.Prebuild.Releases.{HasRelease, check_releases-HasRelease}
use aos_vehicle_platform.Fota.Prebuild.Bound.{AreBound, check_documents-AreBound}

check_forbidden-All :
    (files : Dict String Bytes)
    → check_forbidden files ≡ ok tt
    → All (λ (file : String × Bytes). any_occurs forbidden file.1 ≡ false) files
unfolding check_forbidden
check_forbidden-All [] h = tt
check_forbidden-All ((name, content) ∷ files) h =
    (ground arith, check_forbidden-All files (ground arith))

differs-eq : (a b : Bool) → differs a b ≡ false → a ≡ b
unfolding differs
differs-eq true b h = ground arith
differs-eq false b h = sym h

content_of-eq :
    (name : String) (files : Dict String Bytes) (content : Bytes)
    → content_of name files ≡ ok content
    → lookup name files ≡ some content
unfolding content_of
content_of-eq name files content h = ground arith

-- The files of a source prebuild of this release and this source revision.
pub record IsPrebuild (t : Tools) (files : Dict String Bytes) (version revision : String)
    : Type 0 where
  pub complete : is_subset required (file_names files) ≡ true
  pub only_release : HasRelease (file_names files) version
  pub advisory : has_file advisory_module files ≡ (version == "3.0.0")
  pub clean : All (λ (file : String × Bytes). any_occurs forbidden file.1 ≡ false) files
  pub raw : Bytes
  pub manifest : lookup "config/capability-manifest.json" files ≡ some raw
  pub component : Json
  pub config : Json
  pub prebuild : Json
  pub component_read : (content_of "component.json" files >>= t.loads) ≡ ok component
  pub config_read : (content_of "config/provider.json" files >>= t.loads) ≡ ok config
  pub prebuild_read : (content_of "prebuild.json" files >>= t.loads) ≡ ok prebuild
  pub bound : AreBound component config prebuild (t.sha256 raw) version revision
  pub inventory : Items
  pub listed_files : get_or_null "sourceFiles" bound.p ≡ Json.arr inventory
  pub exact : Records t inventory (listed (sort_items files))

check_layout-facts :
    (files : Dict String Bytes) (version : String)
    → check_layout files version ≡ ok tt
    → (is_subset required (file_names files) ≡ true)
      × (check_releases files version ≡ ok true)
      × (has_file advisory_module files ≡ (version == "3.0.0"))
unfolding check_layout
check_layout-facts files version h =
    let (_, complete, h) =
      >>=-eq-ok (raise_if (not (is_subset required (file_names files))) _) _ h in
    let (exact, releases, h) = >>=-eq-ok (check_releases files version) _ h in
    (
      ground arith,
      releases ∙ ap ok (ground arith),
      differs-eq (has_file advisory_module files) (version == "3.0.0") (ground arith),
    )

source_files-eq :
    (fs gs : Fields) (vs : Items)
    → fs ≡ gs
    → get_or_null "sourceFiles" gs ≡ Json.arr vs
    → get_or_null "sourceFiles" fs ≡ Json.arr vs
source_files-eq fs gs vs e h = rw e h

module _ (t : Tools) where
  validate_files-IsPrebuild :
      (files : Dict String Bytes) (version revision : String)
      → validate_files t files version revision ≡ ok tt
      → IsPrebuild t files version revision
  unfolding validate_files expected_source_files
  validate_files-IsPrebuild files version revision h =
      let (_, layout, h) = >>=-eq-ok (check_layout files version) _ h in
      let (_, clean, h) = >>=-eq-ok (check_forbidden files) _ h in
      let (component, component_read, h) =
        >>=-eq-ok (content_of "component.json" files >>= t.loads) _ h in
      let (raw, is_raw, h) = >>=-eq-ok (content_of "config/capability-manifest.json" files) _ h in
      let (manifest, _, h) = >>=-eq-ok (t.loads raw) _ h in
      let (config, config_read, h) =
        >>=-eq-ok (content_of "config/provider.json" files >>= t.loads) _ h in
      let (prebuild, prebuild_read, h) =
        >>=-eq-ok (content_of "prebuild.json" files >>= t.loads) _ h in
      let (p, documents, h) =
        >>=-eq-ok
          (check_documents component manifest config prebuild (t.sha256 raw) version revision) _
          h in
      let (bound, same) =
        check_documents-AreBound component manifest config prebuild (t.sha256 raw) version revision
          p documents in
      let (vs, is_arr, records_of) =
        is_objects-Records t (get_or_null "sourceFiles" p) (listed (sort_items files))
          (ground arith) in
      let (complete, release, advisory) = check_layout-facts files version layout in
      record {
        complete = complete;
        only_release = check_releases-HasRelease files version release;
        advisory = advisory;
        clean = check_forbidden-All files clean;
        raw = raw;
        manifest = content_of-eq "config/capability-manifest.json" files raw is_raw;
        component = component;
        config = config;
        prebuild = prebuild;
        component_read = component_read;
        config_read = config_read;
        prebuild_read = prebuild_read;
        bound = bound;
        inventory = vs;
        listed_files = source_files-eq bound.p p vs same is_arr;
        exact = records_of;
      }

  -- An archive that `validate_bytes` accepts for a version and a source revision is readable, and its
  -- files are complete, with the release module of this version and no other, and the advisory module
  -- exactly if the version is 3.0.0. No file contains a forbidden marker. The component document and
  -- the provider's configuration have the digest of the capability manifest's bytes and the version,
  -- the prebuild document has the source revision, says that it is not deployable, and lists exactly
  -- the other files, sorted, each with its digest.
  pub validate_bytes-IsPrebuild :
      (archive : Bytes) (version revision : String)
      → validate_bytes t archive version revision ≡ ok tt
      → (files : Dict String Bytes) × (members t archive ≡ ok files)
        × IsPrebuild t files version revision
  unfolding validate_bytes
  validate_bytes-IsPrebuild archive version revision h =
      let (files, read, valid) = >>=-eq-ok (members t archive) _ h in
      (files, read, validate_files-IsPrebuild files version revision valid)
