-- ===== src/Fota/Documents.antt =====
-- Dicts of JSON values and of files, as packaging/fota builds and reads them.
use aos_vehicle_platform.Prelude.{
  String, Bool, true, false, not, none, some, List, [], ◌∷◌, nat_eq, string_eq, if◌then◌else◌,
  Result, ok, err, other_error, key_error,
}
use aos_vehicle_platform.Prelude.Dict.{Dict, lookup}
use aos_vehicle_platform.Python.{Json, Items, Fields}
use aos_vehicle_platform.Fota.Bytes.{ascii, starts_with}

-- `value.get`, which only a dict has.
unfoldable pub as_object : Json → Result Fields
as_object (Json.obj fs) = ok fs
as_object _ = err other_error

unfoldable pub fields_of : List (String × Json) → Fields
fields_of [] = Fields.end
fields_of ((k, v) ∷ rest) = Fields.field k v (fields_of rest)

-- A dict as `json.dumps` takes it.
unfoldable pub object : List (String × Json) → Json
unfolding fields_of
object entries = Json.obj (fields_of entries)

items_of : List Json → Items
items_of [] = Items.nil
items_of (v ∷ vs) = Items.cons v (items_of vs)

unfoldable pub array : List Json → Json
unfolding items_of
array values = Json.arr (items_of values)

-- `set(files)`
unfoldable pub file_names {ℓ} : {V : Type ℓ} → Dict String V → List String
file_names [] = []
file_names ((name, content) ∷ files) = name ∷ file_names files

-- `files[name]`
unfoldable pub content_of {ℓ} : {V : Type ℓ} → String → Dict String V → Result V
content_of name files = elim (lookup name files) [
  | none ↦ err (key_error name)
  | some content ↦ ok content
]

-- `name in files`
unfoldable pub has_file {ℓ} : {V : Type ℓ} → String → Dict String V → Bool
has_file name files = elim (lookup name files) [ none ↦ false | some content ↦ true ]

-- The names that begin with `prefix`.
unfoldable pub names_under : String → List String → List String
names_under prefix [] = []
names_under prefix (name ∷ names) =
    let rest = names_under prefix names in
    if starts_with (ascii prefix) (ascii name) then name ∷ rest else rest

-- `a != b` on Booleans.
unfoldable pub differs : Bool → Bool → Bool
differs true b = not b
differs false b = b

-- `value is True`
unfoldable pub is_true : Json → Bool
is_true (Json.bool b) = b
is_true _ = false
