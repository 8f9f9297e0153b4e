-- ===== src/Python/Equal.antt =====
-- `==` of two values of `json.loads`: `True` is 1, an int may be a float, and the order of an
-- object's keys does not count.
pub mod Laws
use aos_vehicle_platform.Prelude.{
  ℕ, suc, String, Bool, true, false, ◌&&◌, Option, none, some, ◌==◌, nat_eq, string_eq,
}
use aos_vehicle_platform.Python.{
  Json, Items, Fields, ℤ, pos, negsuc, Double, is_negative, float_equals, float_equals_int, is_int,
  get, keys, same_set,
}
use aos_vehicle_platform.Python.Floats.{magnitude}

int_equals : ℤ → ℤ → Bool
int_equals (pos m) (pos n) = m == n
int_equals (pos m) (negsuc n) = false
int_equals (negsuc m) (pos n) = false
int_equals (negsuc m) (negsuc n) = m == n

-- A float that is this int.
float_is : ℤ → Double → Bool
float_is (pos n) d = float_equals_int n d
float_is (negsuc n) d = is_negative d && float_equals_int (suc n) (record { bits = magnitude d })

int_of : Bool → ℕ
int_of true = 1
int_of false = 0

float_equals_json : Double → Json → Bool
unfolding float_is
float_equals_json d (Json.bool b) = float_equals_int (int_of b) d
float_equals_json d (Json.int z) = float_is z d
float_equals_json d (Json.float e) = float_equals d e
float_equals_json d _ = false

int_equals_json : ℤ → Json → Bool
unfolding int_equals float_is
int_equals_json z (Json.bool b) = int_equals z (pos (int_of b))
int_equals_json z (Json.int y) = int_equals z y
int_equals_json z (Json.float e) = float_is z e
int_equals_json z _ = false

unfoldable mutual
  unfolding float_equals_json int_equals_json int_of

  pub json_equals : Json → Json → Bool
  json_equals Json.null Json.null = true
  json_equals Json.null _ = false
  json_equals (Json.bool b) v = int_equals_json (pos (int_of b)) v
  json_equals (Json.int z) v = int_equals_json z v
  json_equals (Json.float d) v = float_equals_json d v
  json_equals (Json.str s) (Json.str t) = s == t
  json_equals (Json.str s) _ = false
  json_equals (Json.arr vs) (Json.arr ws) = items_equal vs ws
  json_equals (Json.arr vs) _ = false
  json_equals (Json.obj fs) (Json.obj gs) = same_set (keys fs) (keys gs) && fields_in fs gs
  json_equals (Json.obj fs) _ = false

  pub items_equal : Items → Items → Bool
  items_equal Items.nil Items.nil = true
  items_equal Items.nil (Items.cons w ws) = false
  items_equal (Items.cons v vs) Items.nil = false
  items_equal (Items.cons v vs) (Items.cons w ws) = json_equals v w && items_equal vs ws

  pub fields_in : Fields → Fields → Bool
  fields_in Fields.end gs = true
  fields_in (Fields.field k v fs) gs = elim (get k gs) [
    | none ↦ false
    | some w ↦ json_equals v w && fields_in fs gs
  ]
