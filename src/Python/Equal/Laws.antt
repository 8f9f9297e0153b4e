-- ===== src/Python/Equal/Laws.antt =====
-- What values that `==` takes for one have in common.
use aos_vehicle_platform.Prelude.{
  String, ◌≡◌, refl, ap, true, some, arith, ◌==◌, string_eq, contains, List, [], ◌∷◌, Option-cases,
  Bool-cases, inl, inr,
}
use aos_vehicle_platform.Python.{Json, Fields, get, is_subset, same_set, keys}
use aos_vehicle_platform.Python.Equal.{json_equals, fields_in}

-- What equals a text is that text.
pub json_equals-str : (v : Json) (s : String) → json_equals v (Json.str s) ≡ true → v ≡ Json.str s
unfolding json_equals
json_equals-str (Json.str r) s h = ap Json.str (ground arith)
json_equals-str Json.null s h = cc
json_equals-str (Json.bool b) s h = cc
json_equals-str (Json.int z) s h = cc
json_equals-str (Json.float d) s h = cc
json_equals-str (Json.arr vs) s h = cc
json_equals-str (Json.obj fs) s h = cc

-- What equals a dict is a dict whose values are in that one.
pub json_equals-obj :
    (v : Json) (gs : Fields)
    → json_equals v (Json.obj gs) ≡ true
    → (fs : Fields) × (v ≡ Json.obj fs)
      × (same_set (keys fs) (keys gs) ≡ true)
      × (fields_in fs gs ≡ true)
unfolding json_equals
json_equals-obj (Json.obj fs) gs h = (fs, refl, ground arith, ground arith)
json_equals-obj (Json.str r) s h = cc
json_equals-obj Json.null s h = cc
json_equals-obj (Json.bool b) s h = cc
json_equals-obj (Json.int z) s h = cc
json_equals-obj (Json.float d) s h = cc
json_equals-obj (Json.arr vs) s h = cc

fields_in-cons :
    (k : String) (u : Json) (fs gs : Fields)
    → fields_in (Fields.field k u fs) gs ≡ true
    → (w : Json) × (get k gs ≡ some w) × (json_equals u w ≡ true) × (fields_in fs gs ≡ true)
unfolding json_equals
fields_in-cons k u fs gs h = elim (Option-cases (get k gs)) [
  | inl missing ↦ absurd (ground arith)
  | inr (w, there) ↦ (w, there, ground arith, ground arith)
]

-- The value under a key equals that of the other dict.
pub fields_in-get :
    (fs gs : Fields) (key : String) (v w : Json)
    → fields_in fs gs ≡ true
    → get key fs ≡ some v
    → get key gs ≡ some w
    → json_equals v w ≡ true
unfolding get
fields_in-get Fields.end gs key v w h there other = cc
fields_in-get (Fields.field k u fs) gs key v w h there other =
    let (w', here, same, rest) = fields_in-cons k u fs gs h in
    ground (arith, fields_in-get fs gs key v w rest)

-- A member of a subset is one of the set.
pub is_subset-mem :
    (xs ys : List String) (x : String)
    → is_subset xs ys ≡ true
    → contains xs x ≡ true
    → contains ys x ≡ true
unfolding is_subset contains
is_subset-mem [] ys x h m = cc
is_subset-mem (z ∷ xs) ys x h m = ground (arith, is_subset-mem xs ys x)

get-mem :
    (key : String) (gs : Fields) (w : Json) → get key gs ≡ some w → contains (keys gs) key ≡ true
unfolding get keys contains
get-mem key Fields.end w h = cc
get-mem key (Fields.field k v gs) w h = ground (arith, get-mem key gs w)

mem-get :
    (key : String) (fs : Fields)
    → contains (keys fs) key ≡ true
    → (v : Json) × (get key fs ≡ some v)
unfolding get keys contains
mem-get key Fields.end h = cc
mem-get key (Fields.field k v fs) h = elim (Bool-cases (key == k)) [
  | inl same ↦ (v, ground arith)
  | inr other ↦ let (w, there) = mem-get key fs (ground arith) in (w, ground arith)
]

same_set-mem :
    (xs ys : List String) (x : String)
    → same_set xs ys ≡ true
    → contains ys x ≡ true
    → contains xs x ≡ true
unfolding same_set
same_set-mem xs ys x h m = is_subset-mem ys xs x (ground arith) m

-- The values under a key of two dicts that are one.
pub json_equals-get :
    (fs gs : Fields) (key : String) (w : Json)
    → same_set (keys fs) (keys gs) ≡ true
    → fields_in fs gs ≡ true
    → get key gs ≡ some w
    → (v : Json) × (get key fs ≡ some v) × (json_equals v w ≡ true)
json_equals-get fs gs key w same within there =
    let (v, here) =
      mem-get key fs (same_set-mem (keys fs) (keys gs) key same (get-mem key gs w there)) in
    (v, here, fields_in-get fs gs key v w within here there)
