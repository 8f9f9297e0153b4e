-- ===== src/Fota/Prebuild/Releases.antt =====
-- The release module of an archive that packaging/fota accepts.
use aos_vehicle_platform.Prelude.{
  String, ◌<>◌, ◌≡◌, true, List, [], ◌∷◌, arith, ok, ap, ◌∙◌, string_eq, ◌&&◌, contains, >>=-eq-ok,
  ok-injective,
}
use aos_vehicle_platform.Prelude.Dict.{Dict}
use aos_vehicle_platform.Python.{is_subset, same_set}
use aos_vehicle_platform.Python.Equal.Laws.{is_subset-mem}
use aos_vehicle_platform.Fota.Bytes.{ascii, starts_with}
use aos_vehicle_platform.Fota.Documents.{file_names, names_under}
use aos_vehicle_platform.Fota.Family.{profile_module, releases_prefix, check_releases}

-- The module of this version is there, and no other name begins like a release module.
pub record HasRelease (names : List String) (version : String) : Type 0 where
  pub module_name : String
  pub is_module : profile_module version ≡ ok module_name
  pub present : contains names (releases_prefix <> module_name) ≡ true
  pub only :
      (name : String)
      → contains names name ≡ true
      → starts_with (ascii (releases_prefix <> "v")) (ascii name) ≡ true
      → name ≡ releases_prefix <> module_name

names_under-contains :
    (prefix : String) (names : List String) (name : String)
    → contains (names_under prefix names) name ≡ true
    → contains names name ≡ true
unfolding names_under contains
names_under-contains prefix [] name h = h
names_under-contains prefix (n ∷ names) name h =
    ground (arith, names_under-contains prefix names name)

contains-names_under :
    (prefix : String) (names : List String) (name : String)
    → contains names name ≡ true
    → starts_with (ascii prefix) (ascii name) ≡ true
    → contains (names_under prefix names) name ≡ true
unfolding names_under contains
contains-names_under prefix [] name h begins = h
contains-names_under prefix (n ∷ names) name h begins =
    let same : n ≡ name → starts_with (ascii prefix) (ascii n) ≡ true =
      λ e. ap (λ x. starts_with (ascii prefix) (ascii x)) e ∙ begins in
    ground (arith, same, contains-names_under prefix names name)

contains-single : (x name : String) → contains (x ∷ []) name ≡ true → name ≡ x
unfolding contains
contains-single x name h = ground arith

contains_self : (x : String) → contains (x ∷ []) x ≡ true
unfolding contains
contains_self x = ground arith

pub check_releases-HasRelease {ℓ} :
    {V : Type ℓ} (files : Dict String V) (version : String)
    → check_releases files version ≡ ok true
    → HasRelease (file_names files) version
unfolding check_releases same_set
check_releases-HasRelease files version h =
    let (module_name, is_module, same) = >>=-eq-ok (profile_module version) _ h in
    let names = names_under (releases_prefix <> "v") (file_names files) in
    let target = releases_prefix <> module_name in
    let both : (is_subset names (target ∷ []) && is_subset (target ∷ []) names) ≡ true =
      ok-injective same in
    let within : is_subset names (target ∷ []) ≡ true = ground arith in
    let covered : is_subset (target ∷ []) names ≡ true = ground arith in
    record {
      module_name = module_name;
      is_module = is_module;
      present =
          names_under-contains (releases_prefix <> "v") (file_names files) target
            (is_subset-mem (target ∷ []) names target covered (contains_self target));
      only = λ name known begins. contains-single target name (
          is_subset-mem names (target ∷ []) name within
            (contains-names_under (releases_prefix <> "v") (file_names files) name known begins));
    }
