-- ===== src/Manifest/Valid.antt =====
-- What `load_manifest` and `validate_manifest` (manifest.py) accept, and how they fail.
use aos_vehicle_platform.Prelude.{
  String, ◌≡◌, refl, sym, ◌∙◌, ap, ap₂, true, Option, none, some, List, [], ◌∷◌, arith, Result, ok,
  err, ◌==◌, string_eq, if◌then◌else◌, >>=-eq-ok,
}
use aos_vehicle_platform.Python.{Json, Items, Fields, Library, get_or_null, is_str}
use aos_vehicle_platform.Bridge.Signal.{paths_of}
use mathlib.Core.Option.{some-injective}
use aos_vehicle_platform.Manifest.Releases.{
  Profile, Release, v1, v1_0_14, v1_0_15, v2, v3, profile_of,
}
use aos_vehicle_platform.Manifest.{
  are_texts, is_texts, check_identity, validate_manifest, Files, load_bytes, load_manifest,
  component_type, decode_failure,
}

-- The JSON list of these texts.
unfoldable pub text_items : List String → Items
text_items [] = Items.nil
text_items (t ∷ ts) = Items.cons (Json.str t) (text_items ts)

abbrev pub json_texts : List String → Json
json_texts ts = Json.arr (text_items ts)

pub is_str-eq : (j : Json) (t : String) → is_str j t ≡ true → j ≡ Json.str t
unfolding is_str
is_str-eq (Json.str s) t h = ap Json.str (ground arith)
is_str-eq Json.null t h = absurd (ground arith)
is_str-eq (Json.bool b) t h = absurd (ground arith)
is_str-eq (Json.int n) t h = absurd (ground arith)
is_str-eq (Json.float d) t h = absurd (ground arith)
is_str-eq (Json.arr vs) t h = absurd (ground arith)
is_str-eq (Json.obj fs) t h = absurd (ground arith)

are_texts-eq : (vs : Items) (ts : List String) → are_texts vs ts ≡ true → vs ≡ text_items ts
unfolding are_texts text_items
are_texts-eq Items.nil [] h = refl
are_texts-eq Items.nil (t ∷ ts) h = absurd (ground arith)
are_texts-eq (Items.cons v vs) [] h = absurd (ground arith)
are_texts-eq (Items.cons v vs) (t ∷ ts) h =
    ap₂ Items.cons (is_str-eq v t (ground arith)) (are_texts-eq vs ts (ground arith))

is_texts-eq : (j : Json) (ts : List String) → is_texts j ts ≡ true → j ≡ Json.arr (text_items ts)
unfolding is_texts
is_texts-eq (Json.arr vs) ts h = ap Json.arr (are_texts-eq vs ts h)
is_texts-eq Json.null ts h = absurd (ground arith)
is_texts-eq (Json.bool b) ts h = absurd (ground arith)
is_texts-eq (Json.int n) ts h = absurd (ground arith)
is_texts-eq (Json.float d) ts h = absurd (ground arith)
is_texts-eq (Json.str s) ts h = absurd (ground arith)
is_texts-eq (Json.obj fs) ts h = absurd (ground arith)

-- The manifest says who it is for, and what the profile reads and can do.
pub record IsFor (profile : Profile) (manifest : Fields) : Type 0 where
  pub component : get_or_null "componentId" manifest ≡ Json.str "vehicle-data-platform"
  pub kind : get_or_null "componentType" manifest ≡ Json.str component_type
  pub version : get_or_null "semanticVersion" manifest ≡ Json.str profile.version
  pub paths : get_or_null "readPaths" manifest ≡ json_texts (paths_of profile.signals)
  pub capabilities : get_or_null "capabilities" manifest ≡ json_texts profile.capabilities

check_identity-IsFor :
    (manifest : Fields) (profile : Profile)
    → check_identity manifest profile ≡ ok tt
    → IsFor profile manifest
unfolding check_identity
check_identity-IsFor manifest profile h = record {
  component = is_str-eq (get_or_null "componentId" manifest) "vehicle-data-platform" (ground arith);
  kind = is_str-eq (get_or_null "componentType" manifest) component_type (ground arith);
  version = is_str-eq (get_or_null "semanticVersion" manifest) profile.version (ground arith);
  paths = is_texts-eq (get_or_null "readPaths" manifest) (paths_of profile.signals) (ground arith);
  capabilities =
      is_texts-eq (get_or_null "capabilities" manifest) profile.capabilities (ground arith);
}

validate_manifest-IsFor :
    (manifest : Json) (profile : Profile)
    → validate_manifest manifest profile ≡ ok tt
    → (fs : Fields) × (manifest ≡ Json.obj fs) × IsFor profile fs
unfolding validate_manifest
validate_manifest-IsFor (Json.obj fs) profile h =
    let (_, identity, _) = >>=-eq-ok (check_identity fs profile) _ h in
    (fs, refl, check_identity-IsFor fs profile identity)
validate_manifest-IsFor Json.null profile h = cc
validate_manifest-IsFor (Json.bool b) profile h = cc
validate_manifest-IsFor (Json.int n) profile h = cc
validate_manifest-IsFor (Json.float d) profile h = cc
validate_manifest-IsFor (Json.str s) profile h = cc
validate_manifest-IsFor (Json.arr vs) profile h = cc

module _ (F : Files) where
  load_bytes-ok :
      (raw : F.Bytes) (profile : Profile) (manifest : Json)
      → load_bytes F raw profile ≡ ok manifest
      → (F.sha256_bytes raw ≡ profile.manifest_sha256)
        × (F.loads_bytes raw ≡ ok manifest)
        × (validate_manifest manifest profile ≡ ok tt)
  unfolding load_bytes decode_failure
  load_bytes-ok raw profile manifest h = (ground arith, ground arith, ground arith)

  -- `load_manifest` returns only what `json.loads` makes of a regular file's bytes whose digest is the
  -- profile's, and that is an object with the component's ID and type, the profile's version, and
  -- exactly the paths of its signals and its capabilities, in their order.
  pub load_manifest-IsFor :
      (file : Option (Result F.Bytes)) (profile : Profile) (manifest : Json)
      → load_manifest F file profile ≡ ok manifest
      → (raw : F.Bytes) × (file ≡ some (ok raw))
        × (F.sha256_bytes raw ≡ profile.manifest_sha256)
        × (F.loads_bytes raw ≡ ok manifest)
        × ((fs : Fields) × (manifest ≡ Json.obj fs) × IsFor profile fs)
  unfolding load_manifest
  load_manifest-IsFor none profile manifest h = cc
  load_manifest-IsFor (some (err e)) profile manifest h = cc
  load_manifest-IsFor (some (ok raw)) profile manifest h =
      let (digest, loaded, valid) = load_bytes-ok raw profile manifest h in
      (raw, refl, digest, loaded, validate_manifest-IsFor manifest profile valid)

-- The release that a version names.
release_named : String → Option Release
release_named version =
    if version == "1.0.0"
    then some v1
    else if version == "1.0.14"
    then some v1_0_14
    else if version == "1.0.15"
    then some v1_0_15
    else if version == "2.0.0"
    then some v2
    else if version == "3.0.0"
    then some v3
    else none

release_named-version :
    (py : Library) (r : Release) → release_named (profile_of py r).version ≡ some r
unfolding release_named profile_of string_eq
release_named-version py v1 = refl
release_named-version py v1_0_14 = refl
release_named-version py v1_0_15 = refl
release_named-version py v2 = refl
release_named-version py v3 = refl

obj-injective : (a b : Fields) → Json.obj a ≡ Json.obj b → a ≡ b
obj-injective a b h = cc

version-injective : (a b : String) → Json.str a ≡ Json.str b → a ≡ b
version-injective a b h = cc

-- No manifest is valid for two releases.
pub validate_manifest_unique :
    (py : Library) (r r' : Release) (manifest : Json)
    → validate_manifest manifest (profile_of py r) ≡ ok tt
    → validate_manifest manifest (profile_of py r') ≡ ok tt
    → r ≡ r'
validate_manifest_unique py r r' manifest h h' =
    let (fs, e, a) = validate_manifest-IsFor manifest (profile_of py r) h in
    let (fs', e', b) = validate_manifest-IsFor manifest (profile_of py r') h' in
    let same : fs ≡ fs' = obj-injective fs fs' (sym e ∙ e') in
    let versions : (profile_of py r).version ≡ (profile_of py r').version =
      version-injective _ _ (sym a.version ∙ ap (get_or_null "semanticVersion") same ∙ b.version) in
    some-injective r r'
      (sym (release_named-version py r) ∙ ap release_named versions ∙ release_named-version py r')
