-- ===== src/Manifest.antt =====
-- manifest.py: `validate_manifest` and `load_manifest`. `Releases` has the release profiles and the
-- contracts; the children below prove what holds.
mod Tests
pub mod Releases
pub mod Valid
pub mod Compatible
use aos_vehicle_platform.Prelude.{
  ℕ, String, Bool, true, false, not, ◌&&◌, ◌||◌, Option, none, some, List, [], ◌∷◌, ◌++◌, map,
  Result, ok, err, Exception, manifest_error, key_error, json_decode_error, ◌==◌, ◌/=◌, string_eq,
  if◌then◌else◌, raise_if, ◌>>=◌, ◌>>◌,
}
use aos_vehicle_platform.Prelude.Dict.{Dict, lookup}
use aos_vehicle_platform.Python.{Json, Items, Fields, get_or_null, keys, same_set, is_str, is_int}
use aos_vehicle_platform.Bridge.Signal.{paths_of}
use aos_vehicle_platform.Manifest.Releases.{
  Texts, Profile, AdvisoryContract, contract_of, advisory_endpoints, vdp_contract, viss_contract,
  hardware_profile,
}

abbrev malformed : Exception
malformed = manifest_error "CAPABILITY_MANIFEST_MALFORMED"

abbrev version_unsupported : Exception
version_unsupported = manifest_error "COMPONENT_VERSION_UNSUPPORTED"

abbrev digest_mismatch : Exception
digest_mismatch = manifest_error "CONTRACT_DIGEST_MISMATCH"

-- `==` of a JSON value with a list of texts.
are_texts : Items → List String → Bool
are_texts Items.nil [] = true
are_texts Items.nil (t ∷ ts) = false
are_texts (Items.cons v vs) [] = false
are_texts (Items.cons v vs) (t ∷ ts) = is_str v t && are_texts vs ts

unfoldable pub is_texts : Json → List String → Bool
unfolding are_texts
is_texts (Json.arr vs) ts = are_texts vs ts
is_texts _ ts = false

names_of {ℓ} : {A : Type ℓ} → Dict String A → List String
names_of [] = []
names_of ((k, v) ∷ d) = k ∷ names_of d

has_texts : Fields → Texts → Bool
has_texts fs [] = true
has_texts fs ((k, t) ∷ rest) = is_str (get_or_null k fs) t && has_texts fs rest

-- `==` of a JSON value with a dict of texts.
unfoldable pub is_object : Json → Texts → Bool
unfolding names_of has_texts
is_object (Json.obj fs) texts = same_set (keys fs) (names_of texts) && has_texts fs texts
is_object _ texts = false

unfoldable pub are_objects : Items → List Texts → Bool
are_objects Items.nil [] = true
are_objects Items.nil (t ∷ ts) = false
are_objects (Items.cons v vs) [] = false
are_objects (Items.cons v vs) (t ∷ ts) = is_object v t && are_objects vs ts

-- `==` of a JSON value with a list of dicts of texts.
unfoldable pub is_objects : Json → List Texts → Bool
unfolding are_objects
is_objects (Json.arr vs) ts = are_objects vs ts
is_objects _ ts = false

has_objects : Fields → Dict String Texts → Bool
has_objects fs [] = true
has_objects fs ((k, t) ∷ rest) = is_object (get_or_null k fs) t && has_objects fs rest

-- `==` of a JSON value with a dict of dicts of texts.
unfoldable pub is_table : Json → Dict String Texts → Bool
unfolding names_of has_objects
is_table (Json.obj fs) table = same_set (keys fs) (names_of table) && has_objects fs table
is_table _ table = false

required_keys : List String
required_keys =
    "$comment" ∷ "advisoryEndpoints" ∷ "capabilities" ∷ "componentId" ∷ "componentType"
    ∷ "contracts" ∷ "readPaths" ∷ "runtimeInterface" ∷ "schemaVersion" ∷ "semanticVersion" ∷ []

-- `COMPONENT_TYPE`
abbrev pub component_type : String
component_type = "aos-vm-1.0.0-main-qemuarm64-vehicle-data-provider"

-- `[ADVISORY_ENDPOINTS[endpoint_id] for endpoint_id in ids]`
unfoldable pub expected_endpoints : List String → Result (List Texts)
expected_endpoints [] = ok []
expected_endpoints (id ∷ ids) = elim (lookup id advisory_endpoints) [
  | none ↦ err (key_error id)
  | some endpoint ↦ expected_endpoints ids >>= λ endpoints. ok (endpoint ∷ endpoints)
]

base_contracts : Dict String Texts
base_contracts =
    ("vdpCompatibility", vdp_contract)
    ∷ ("vehicleHardware", hardware_profile)
    ∷ ("vissTrustTelemetry", viss_contract)
    ∷ []

-- `expected_contracts`
unfoldable pub expected_contracts :
    List String → Option AdvisoryContract → Result (Dict String Texts)
unfolding base_contracts
expected_contracts [] contract = ok base_contracts
expected_contracts (id ∷ ids) none = err digest_mismatch
expected_contracts (id ∷ ids) (some contract) =
    ok (base_contracts ++ (("typedQmAdvisory", contract_of contract) ∷ []))

-- The checks before those of the endpoints.
unfoldable pub check_identity : Fields → Profile → Result (Unit {0})
unfolding required_keys
check_identity manifest profile = do
  raise_if (not (same_set (keys manifest) required_keys)) malformed
  raise_if
      (not (is_int (get_or_null "schemaVersion" manifest) 1)
        || not (is_int (get_or_null "runtimeInterface" manifest) 1))
      version_unsupported
  raise_if (not (is_str (get_or_null "componentId" manifest) "vehicle-data-platform"))
      (manifest_error "CONTRACT_ID_MISMATCH")
  raise_if (not (is_str (get_or_null "componentType" manifest) component_type)) version_unsupported
  raise_if (not (is_str (get_or_null "semanticVersion" manifest) profile.version))
      version_unsupported
  raise_if (not (is_texts (get_or_null "readPaths" manifest) (paths_of profile.signals)))
      (manifest_error "REQUIRED_PATH_MISSING")
  raise_if (not (is_texts (get_or_null "capabilities" manifest) profile.capabilities))
      (manifest_error "REQUIRED_CAPABILITY_MISSING")

-- The checks of the endpoints and the contracts.
unfoldable pub check_contracts : Fields → Profile → Result (Unit {0})
check_contracts manifest profile = do
  endpoints ← expected_endpoints profile.advisory_endpoint_ids
  raise_if (not (is_objects (get_or_null "advisoryEndpoints" manifest) endpoints))
      (manifest_error "ADVISORY_UNAVAILABLE")
  contracts ← expected_contracts profile.advisory_endpoint_ids profile.advisory_contract
  raise_if (not (is_table (get_or_null "contracts" manifest) contracts)) digest_mismatch

unfoldable pub validate_manifest : Json → Profile → Result (Unit {0})
validate_manifest (Json.obj manifest) profile = do
  check_identity manifest profile
  check_contracts manifest profile
validate_manifest _ profile = err malformed

-- The file as the provider finds it: `hashlib.sha256` of bytes in hexadecimal, and `json.loads` of
-- bytes, are Python's.
pub record Files : Type 1 where
  pub Bytes : Type 0
  pub sha256_bytes : Bytes → String
  pub loads_bytes : Bytes → Result Json

-- `except json.JSONDecodeError`
decode_failure : Exception → Exception
decode_failure json_decode_error = malformed
decode_failure e = e

module _ (F : Files) where
  -- The bytes of a regular file.
  unfoldable pub load_bytes : F.Bytes → Profile → Result Json
  unfolding decode_failure
  load_bytes raw profile =
      if F.sha256_bytes raw == profile.manifest_sha256
      then (elim (F.loads_bytes raw) [
        | err e ↦ err (decode_failure e)
        | ok manifest ↦ validate_manifest manifest profile >>= λ done. ok manifest
      ])
      else err digest_mismatch

  -- `none` for a path that is no regular file, or a symbolic link.
  unfoldable pub load_manifest : Option (Result F.Bytes) → Profile → Result Json
  load_manifest none profile = err malformed
  load_manifest (some (err e)) profile = err e
  load_manifest (some (ok raw)) profile = load_bytes raw profile
