-- ===== src/Manifest/Tests.antt =====
-- The theorems on manifest.py and releases/ at concrete manifests.
use aos_vehicle_platform.Prelude.{
  String, ◌≡◌, refl, Option, none, some, List, [], ◌∷◌, Result, ok, err, json_decode_error,
  string_eq, nat_eq, contains, manifest_error,
}
use aos_vehicle_platform.Python.{
  Json, Items, Fields, Library, Datetime, pos, get, get_or_null, keys, same_set, is_subset, is_str,
  is_int,
}
use aos_vehicle_platform.Bridge.Signal.{paths_of, base_signals}
use aos_vehicle_platform.Manifest.Releases.{
  Texts, Profile, v1, v2, profile_of, vdp_contract, viss_contract, hardware_profile,
}
use aos_vehicle_platform.Manifest.{
  validate_manifest, load_manifest, load_bytes, Files, is_texts, is_object, is_objects, is_table,
  expected_endpoints, expected_contracts, check_identity, check_contracts, component_type,
}
use aos_vehicle_platform.Manifest.Valid.{
  IsFor, json_texts, text_items, load_manifest-IsFor, validate_manifest_unique,
}

read_time : String → Option Datetime
read_time raw = some (record { instant = 1; utcoffset = some (pos 0) })

py : Library
unfolding read_time
py = record {
  loads = λ raw. err json_decode_error;
  dumps = λ j. "json";
  dumps_unicode = λ j. "json";
  float_of = λ raw. none;
  fromisoformat = read_time;
  isoformat_z = λ d. "1Z";
}

text_fields : Texts → Fields
text_fields [] = Fields.end
text_fields ((k, t) ∷ rest) = Fields.field k (Json.str t) (text_fields rest)

-- The manifest of a release without advisories.
manifest : String → List String → List String → Fields
unfolding text_fields text_items
manifest version paths capabilities = Fields.field "$comment" (Json.str "") (
    Fields.field "advisoryEndpoints" (Json.arr Items.nil) (
      Fields.field "capabilities" (json_texts capabilities) (
        Fields.field "componentId" (Json.str "vehicle-data-platform") (
          Fields.field "componentType" (Json.str component_type) (
            Fields.field "contracts"
              (Json.obj (
                Fields.field "vdpCompatibility" (Json.obj (text_fields vdp_contract)) (
                  Fields.field "vehicleHardware" (Json.obj (text_fields hardware_profile)) (
                    Fields.field "vissTrustTelemetry" (Json.obj (text_fields viss_contract))
                      Fields.end))))
              (Fields.field "readPaths" (json_texts paths) (
                Fields.field "runtimeInterface" (Json.int (pos 1)) (
                  Fields.field "schemaVersion" (Json.int (pos 1))
                    (Fields.field "semanticVersion" (Json.str version) Fields.end)))))))))

first_manifest : Json
unfolding manifest
first_manifest =
    Json.obj (manifest "1.0.0" (paths_of (base_signals py)) ("INBOUND_BASE_DYNAMICS" ∷ []))

validated : Json → Profile → Result (Unit {0})
unfolding validate_manifest check_identity check_contracts is_texts is_object is_objects is_table
    expected_endpoints expected_contracts get_or_null get keys same_set is_subset contains is_str
    is_int string_eq nat_eq first_manifest profile_of
validated j profile = validate_manifest j profile

first_is_valid : validate_manifest first_manifest (profile_of py v1) ≡ ok tt
unfolding validated
first_is_valid = refl

-- A manifest of 1.0.0 is not one of 2.0.0.
first_is_not_second :
    validate_manifest first_manifest (profile_of py v2)
    ≡ err (manifest_error "COMPONENT_VERSION_UNSUPPORTED")
unfolding validated
first_is_not_second = refl

-- Bytes that stand for their digest.
abbrev files : Files
files = record { Bytes = String; sha256_bytes = λ raw. raw; loads_bytes = λ raw. ok first_manifest }

abbrev digest : String
digest = "fcca3270d6467827d34ad28fb99c7e71a7c46ebf4c0943de153fb9ec1ecb1a9b"

loaded : load_manifest files (some (ok digest)) (profile_of py v1) ≡ ok first_manifest
unfolding load_manifest load_bytes validated
loaded = refl

load_manifest-IsFor_example :
    (raw : String) × (some (ok digest) ≡ some (ok raw))
    × (raw ≡ (profile_of py v1).manifest_sha256)
    × (files.loads_bytes raw ≡ ok first_manifest)
    × ((fs : Fields) × (first_manifest ≡ Json.obj fs) × IsFor (profile_of py v1) fs)
load_manifest-IsFor_example =
    load_manifest-IsFor files (some (ok digest)) (profile_of py v1) first_manifest loaded

validate_manifest_unique_example : v1 ≡ v1
validate_manifest_unique_example =
    validate_manifest_unique py v1 v1 first_manifest first_is_valid first_is_valid
