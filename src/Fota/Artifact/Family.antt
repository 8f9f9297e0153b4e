-- ===== src/Fota/Artifact/Family.antt =====
-- `validate_family` of packaging/fota/vdp_artifact.py.
pub mod Superset
use aos_vehicle_platform.Prelude.{
  ℕ, suc, String, Bool, true, false, not, ◌&&◌, ◌||◌, Option, none, some, List, [], ◌∷◌, ◌==◌,
  nat_eq, string_eq, Result, ok, err, key_error, type_error, artifact_error, raise_if, ◌>>=◌, ◌>>◌,
}
use aos_vehicle_platform.Prelude.Lists.{length}
use aos_vehicle_platform.Prelude.Text.{codes}
use aos_vehicle_platform.Prelude.Dict.{Dict}
use aos_vehicle_platform.Python.{
  Json, Items, Fields, ℤ, pos, negsuc, get, keys, items, is_subset, same_set, float_equals_int,
}
use aos_vehicle_platform.Fota.Documents.{content_of, file_names}
use aos_vehicle_platform.Fota.Family.{versions}

-- `value[key]`
unfoldable pub item : String → Json → Result Json
item key (Json.obj fs) = elim (get key fs) [ none ↦ err (key_error key) | some v ↦ ok v ]
item key _ = err type_error

texts_in : Items → Result (List String)
texts_in Items.nil = ok []
texts_in (Items.cons (Json.str s) vs) = texts_in vs >>= λ texts. ok (s ∷ texts)
texts_in (Items.cons _ vs) = err type_error

-- `set(value)` of a list of texts. A manifest has no other lists here: what else Python could make
-- a set of is a `TypeError` in the model.
unfoldable pub texts_of : Json → Result (List String)
unfolding texts_in
texts_of (Json.arr vs) = texts_in vs
texts_of _ = err type_error

-- `bool(value)`
unfoldable pub truthy : Json → Bool
truthy Json.null = false
truthy (Json.bool b) = b
truthy (Json.int (pos n)) = not (n == 0)
truthy (Json.int (negsuc n)) = true
truthy (Json.float d) = not (float_equals_int 0 d)
truthy (Json.str s) = not (s == "")
truthy (Json.arr Items.nil) = false
truthy (Json.arr (Items.cons v vs)) = true
truthy (Json.obj Fields.end) = false
truthy (Json.obj (Fields.field k v fs)) = true

-- `len(value)`
unfoldable pub len : Json → Result ℕ
len (Json.arr vs) = ok (length (items vs))
len (Json.obj fs) = ok (length (keys fs))
len (Json.str s) = ok (length (codes s))
len _ = err type_error

-- `manifest["functionalOutputs"]["kuksaPublishedPaths"]`, as a set.
unfoldable pub published : Json → Result (List String)
published manifest = item "functionalOutputs" manifest >>= item "kuksaPublishedPaths" >>= texts_of

-- `manifest["functionalOutputs"]["advisoryEndpoints"]`
unfoldable pub endpoints_of : Json → Result Json
endpoints_of manifest = item "functionalOutputs" manifest >>= item "advisoryEndpoints"

unfoldable pub published_paths : Dict String Json → Result (Dict String (List String))
published_paths [] = ok []
published_paths ((version, manifest) ∷ manifests) = do
  texts ← published manifest
  rest ← published_paths manifests
  ok ((version, texts) ∷ rest)

-- `a < b` of two sets.
unfoldable pub strict_subset : List String → List String → Bool
strict_subset xs ys = is_subset xs ys && not (is_subset ys xs)

unfoldable pub check_paths :
    List String → List String → List String → List String → List String → Result (Unit {0})
check_paths p1 p14 p15 p2 p3 = do
  raise_if (not (same_set p1 p14 && same_set p14 p15))
      (artifact_error "VDP v1 patch releases changed functional paths")
  raise_if (not (strict_subset p15 p2 && strict_subset p2 p3))
      (artifact_error "VDP read-path family is not a strict additive superset")

unfoldable pub check_no_endpoints : List String → Dict String Json → String → Result (Unit {0})
check_no_endpoints [] manifests message = ok tt
check_no_endpoints (version ∷ later) manifests message = do
  endpoints ← content_of version manifests >>= endpoints_of
  raise_if (truthy endpoints) (artifact_error message)
  check_no_endpoints later manifests message

unfoldable pub check_endpoints : Dict String Json → Result (Unit {0})
check_endpoints manifests = do
  check_no_endpoints ("1.0.0" ∷ "1.0.14" ∷ "1.0.15" ∷ []) manifests
      "VDP v1 exposes an advisory endpoint"
  check_no_endpoints ("2.0.0" ∷ []) manifests "VDP v2 exposes an advisory endpoint"
  count ← content_of "3.0.0" manifests >>= endpoints_of >>= len
  raise_if (not (count == 2)) (artifact_error "VDP v3 advisory endpoint inventory mismatch")

-- `validate_family`
unfoldable pub validate_family : Dict String Json → Result (Unit {0})
validate_family manifests = do
  raise_if (not (same_set (file_names manifests) versions))
      (artifact_error "exactly the VDP v1-v3 manifest family is required")
  paths ← published_paths manifests
  p1 ← content_of "1.0.0" paths
  p14 ← content_of "1.0.14" paths
  p15 ← content_of "1.0.15" paths
  p2 ← content_of "2.0.0" paths
  p3 ← content_of "3.0.0" paths
  check_paths p1 p14 p15 p2 p3
  check_endpoints manifests
