-- ===== src/Fota/Prebuild/Listed.antt =====
-- The inventory of a prebuild that `validate_bytes` of packaging/fota/vdp_family.py accepts.
use aos_vehicle_platform.Prelude.{String, ◌≡◌, refl, true, [], ◌∷◌, arith, string_eq}
use aos_vehicle_platform.Prelude.Dict.{Dict}
use aos_vehicle_platform.Python.{Json, Items, Fields, get_or_null}
use aos_vehicle_platform.Manifest.{is_objects, are_objects, is_object}
use aos_vehicle_platform.Manifest.Valid.{is_str-eq}
use aos_vehicle_platform.Fota.Bytes.{Bytes}
use aos_vehicle_platform.Fota.Tar.{Tools}
use aos_vehicle_platform.Fota.Prebuild.{records}

-- Each record of the inventory is the path and the digest of the file at its place.
abbrev pub Records : Tools → Items → Dict String Bytes → Type 0
Records t Items.nil [] = Unit
Records t Items.nil (file ∷ files) = ⊥
Records t (Items.cons v vs) [] = ⊥
Records t (Items.cons v vs) ((name, content) ∷ files) =
    ((fs : Fields) × (v ≡ Json.obj fs)
      × (get_or_null "path" fs ≡ Json.str name)
      × (get_or_null "sha256" fs ≡ Json.str (t.sha256 content)))
    × Records t vs files

is_object-record :
    (t : Tools) (v : Json) (name : String) (content : Bytes)
    → is_object v (("path", name) ∷ ("sha256", t.sha256 content) ∷ []) ≡ true
    → (fs : Fields) × (v ≡ Json.obj fs)
      × (get_or_null "path" fs ≡ Json.str name)
      × (get_or_null "sha256" fs ≡ Json.str (t.sha256 content))
unfolding is_object
is_object-record t (Json.obj fs) name content h =
    (fs, refl, is_str-eq _ name (ground arith), is_str-eq _ (t.sha256 content) (ground arith))
is_object-record t Json.null name content h = cc
is_object-record t (Json.bool b) name content h = cc
is_object-record t (Json.int n) name content h = cc
is_object-record t (Json.float d) name content h = cc
is_object-record t (Json.str s) name content h = cc
is_object-record t (Json.arr vs) name content h = cc

are_objects-Records :
    (t : Tools) (vs : Items) (files : Dict String Bytes)
    → are_objects vs (records t files) ≡ true
    → Records t vs files
unfolding are_objects records
are_objects-Records t Items.nil [] h = tt
are_objects-Records t Items.nil ((name, content) ∷ files) h = cc
are_objects-Records t (Items.cons v vs) [] h = cc
are_objects-Records t (Items.cons v vs) ((name, content) ∷ files) h = (
  is_object-record t v name content (ground arith),
  are_objects-Records t vs files (ground arith),
)

pub is_objects-Records :
    (t : Tools) (v : Json) (files : Dict String Bytes)
    → is_objects v (records t files) ≡ true
    → (vs : Items) × (v ≡ Json.arr vs) × Records t vs files
unfolding is_objects
is_objects-Records t (Json.arr vs) files h = (vs, refl, are_objects-Records t vs files h)
is_objects-Records t (Json.obj fs) files h = cc
is_objects-Records t Json.null files h = cc
is_objects-Records t (Json.bool b) files h = cc
is_objects-Records t (Json.int n) files h = cc
is_objects-Records t (Json.float d) files h = cc
is_objects-Records t (Json.str s) files h = cc
