-- ===== src/Fota/Tests.antt =====
-- Paths, archives and manifest families, run on small inputs, and the theorems at such inputs.
use aos_vehicle_platform.Prelude.{
  suc, ◌-◌, String, ◌≡◌, ◌↔◌, refl, true, none, some, List, [], ◌∷◌, arith, ok, err, artifact_error,
  string_eq, nat_eq, contains,
}
use aos_vehicle_platform.Prelude.Lists.{length, All}
use aos_vehicle_platform.Prelude.Dict.{Dict, lookup}
use aos_vehicle_platform.Python.{Json, Items, get, same_set, is_subset, items, keys}
use aos_vehicle_platform.Manifest.Valid.{json_texts, text_items}
use aos_vehicle_platform.Fota.Bytes.{Bytes, ascii}
use aos_vehicle_platform.Fota.Documents.{object, fields_of, file_names, content_of}
use aos_vehicle_platform.Fota.Paths.{
  parts_of, posix_path, parent, drop_final, add_parents, rstrip, is_unsafe, is_absolute,
}
use aos_vehicle_platform.Fota.Paths.Parents.{climb, add_parents_terminates}
use aos_vehicle_platform.Fota.Tar.{Tools, archive_end, sort_items, ustar, members}
use aos_vehicle_platform.Fota.Tar.RoundTrip.{read_back, written, IsFile, members-ustar}
use aos_vehicle_platform.Fota.Artifact.Family.{
  validate_family, published_paths, published, item, texts_of, check_paths, strict_subset,
  check_endpoints, check_no_endpoints, endpoints_of, truthy, len,
}
use aos_vehicle_platform.Fota.Artifact.Family.Superset.{
  Outputs, IsFamily, family, validate_family_iff,
}

path_parts : parts_of "a//./b/c.py" ≡ "a" ∷ "b" ∷ "c.py" ∷ []
unfolding parts_of string_eq
path_parts = refl

goes_up : is_unsafe "a/../b" ≡ true
unfolding is_unsafe string_eq contains
goes_up = refl

two_parents : add_parents 3 (parent (posix_path "a/b/c.py")) [] ≡ some ("a" ∷ "a/b" ∷ [])
unfolding add_parents parent posix_path string_eq contains
two_parents = refl

-- The root is its own parent.
never_ends : add_parents 9 (parent (posix_path "/a/b")) [] ≡ none
unfolding add_parents parent posix_path string_eq contains
never_ends = refl

add_parents_terminates_example :
    add_parents (suc 5) (parent (posix_path "a/b/c.py")) []
    ≡ some (climb (length (parts_of "a/b/c.py") - 1) (drop_final (parts_of "a/b/c.py")) [])
unfolding is_absolute parts_of string_eq
add_parents_terminates_example = add_parents_terminates "a/b/c.py" 5 [] refl (omega arith)

abbrev two_files : Dict String Bytes
two_files = ("python/main.py", ascii "main") ∷ ("bin/run", ascii "run") ∷ []

two_files-IsFile : All IsFile two_files
unfolding is_unsafe rstrip string_eq contains
two_files-IsFile =
    (record { safe = refl; stripped = refl }, (record { safe = refl; stripped = refl }, tt))

-- One archive, whose bytes stand for these files.
abbrev one_archive : Tools
one_archive = record {
  sha256 = λ content. "";
  loads = λ content. ok Json.null;
  loads_utf8 = λ content. ok Json.null;
  dumps_indent = λ value. "";
  dumps_canonical = λ value. ok [];
  tar_write = λ entries. ok (ascii "ustar");
  tar_read = λ archive. read_back (written two_files);
  tar_read_any = λ archive. archive_end;
  gunzip = λ content. ok none;
  lower = λ text. text;
}

members-ustar_example :
    (ustar one_archive two_files ≡ ok (ascii "ustar"))
    × (members one_archive (ascii "ustar") ≡ ok (sort_items two_files))
unfolding lookup string_eq
members-ustar_example =
    members-ustar one_archive two_files (ascii "ustar") two_files-IsFile (refl, (refl, tt)) refl
      refl

abbrev outputs : List String → Items → Outputs
outputs paths endpoints = record { paths = paths; endpoints = endpoints }

abbrev manifest_of : Outputs → Json
manifest_of o = object (
    (
      "functionalOutputs",
      object (
          ("advisoryEndpoints", Json.arr o.endpoints)
          ∷ ("kuksaPublishedPaths", json_texts o.paths)
          ∷ []),
    )
    ∷ [])

abbrev v1_outputs : Outputs
v1_outputs = outputs ("Speed" ∷ []) Items.nil

abbrev v2_outputs : Outputs
v2_outputs = outputs ("Speed" ∷ "Wheel" ∷ []) Items.nil

abbrev v3_outputs : Outputs
v3_outputs =
    outputs ("Slip" ∷ "Speed" ∷ "Wheel" ∷ [])
      (Items.cons (Json.str "brake") (Items.cons (Json.str "tire") Items.nil))

abbrev small_family : Json → Dict String Json
small_family third =
    family (manifest_of v1_outputs) (manifest_of v1_outputs) (manifest_of v1_outputs)
      (manifest_of v2_outputs) third

family_accepted : validate_family (small_family (manifest_of v3_outputs)) ≡ ok tt
unfolding validate_family string_eq nat_eq same_set file_names published_paths published item object
    get texts_of text_items content_of lookup check_paths strict_subset check_endpoints
    check_no_endpoints endpoints_of truthy len fields_of contains is_subset items keys
family_accepted = refl

small_growth_refused :
    validate_family (small_family (manifest_of v2_outputs))
    ≡ err (artifact_error "VDP read-path family is not a strict additive superset")
unfolding validate_family string_eq nat_eq same_set file_names published_paths published item object
    get texts_of text_items content_of lookup check_paths strict_subset check_endpoints
    check_no_endpoints endpoints_of truthy len fields_of contains is_subset items keys
small_growth_refused = refl

validate_family_iff_example :
    (validate_family (small_family (manifest_of v3_outputs)) ≡ ok tt)
    ↔ IsFamily v1_outputs v1_outputs v1_outputs v2_outputs v3_outputs
unfolding published endpoints_of object string_eq item get texts_of text_items fields_of
validate_family_iff_example =
    validate_family_iff (manifest_of v1_outputs) (manifest_of v1_outputs) (manifest_of v1_outputs)
      (manifest_of v2_outputs) (manifest_of v3_outputs) v1_outputs v1_outputs v1_outputs v2_outputs
      v3_outputs (refl, refl) (refl, refl) (refl, refl) (refl, refl) (refl, refl)
