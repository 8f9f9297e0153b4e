-- ===== src/Fota/Family.antt =====
-- The releases of the family (vdp_family.py), and the release module that an archive must have.
use aos_vehicle_platform.Prelude.{
  String, ◌<>◌, Bool, none, some, List, [], ◌∷◌, nat_eq, string_eq, Result, ok, err, key_error,
  ◌>>=◌,
}
use aos_vehicle_platform.Prelude.Dict.{Dict, lookup}
use aos_vehicle_platform.Python.{same_set}
use aos_vehicle_platform.Manifest.Releases.{Texts}
use aos_vehicle_platform.Fota.Documents.{file_names, names_under}

abbrev pub versions : List String
versions = "1.0.0" ∷ "1.0.14" ∷ "1.0.15" ∷ "2.0.0" ∷ "3.0.0" ∷ []

abbrev pub profile_modules : Texts
profile_modules =
    ("1.0.0", "v1.py")
    ∷ ("1.0.14", "v1_0_14.py")
    ∷ ("1.0.15", "v1_0_15.py")
    ∷ ("2.0.0", "v2.py")
    ∷ ("3.0.0", "v3.py")
    ∷ []

-- `PROFILE_MODULE[version]`
unfoldable pub profile_module : String → Result String
profile_module version = elim (lookup version profile_modules) [
  | none ↦ err (key_error version)
  | some name ↦ ok name
]

abbrev pub releases_prefix : String
releases_prefix = "python/carla_viss_kuksa_provider/releases/"

abbrev pub advisory_module : String
advisory_module = "python/carla_viss_kuksa_provider/advisory.py"

-- The checks of the layout, which a deployable layer passes too, under its own error.
unfoldable pub check_releases {ℓ} : {V : Type ℓ} → Dict String V → String → Result Bool
unfolding names_under
check_releases files version = do
  module_name ← profile_module version
  ok (
      same_set (names_under (releases_prefix <> "v") (file_names files))
        ((releases_prefix <> module_name) ∷ []))
