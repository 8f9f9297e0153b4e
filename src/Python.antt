-- ===== src/Python.antt =====
-- The Python values that cross the provider's borders: JSON as `json.loads` returns it, doubles,
-- datetimes, and the text routines of Python's library, which the model takes as a parameter.
mod Floats
pub mod Patterns
pub mod Equal
pub use Floats.{Double}
unfoldable pub use Floats.{is_finite, is_negative, float_equals, float_equals_int}
use aos_vehicle_platform.Prelude.{ℕ, zero, suc, ◌*◌, ◌+◌, ◌-◌, ◌/◌, ◌%◌, ◌^◌, String, ◌<>◌, Bool}
use aos_vehicle_platform.Prelude.{true, false, not, ◌&&◌, ◌||◌, Option, none, some, List, [], ◌∷◌}
use aos_vehicle_platform.Prelude.{◌==◌, nat_eq, string_eq, contains, if◌then◌else◌, ltb, leb}
use aos_vehicle_platform.Prelude.{Result, ok, err, value_error, type_error, key_error}
use aos_vehicle_platform.Prelude.Text.{drop_last}

-- `negsuc n` is -(n + 1).
pub data ℤ : Type 0 where
  pos : ℕ → ℤ
  negsuc : ℕ → ℤ

-- What `json.loads` returns. An object's fields are in their order, each key once.
mutual
  pub data Json : Type 0 where
    null : Json
    bool : Bool → Json
    int : ℤ → Json
    float : Double → Json
    str : String → Json
    arr : Items → Json
    obj : Fields → Json

  pub data Items : Type 0 where
    nil : Items
    cons : Json → Items → Items

  pub data Fields : Type 0 where
    end : Fields
    field : String → Json → Fields → Fields

-- `d.get(k)`, with `none` for a key that is not there.
unfoldable pub get : String → Fields → Option Json
get k end = none
get k (field j v fs) = if k == j then some v else get k fs

-- `d.get(k)`, with Python's `None` for a key that is not there.
unfoldable pub get_or_null : String → Fields → Json
unfolding get
get_or_null k fs = elim (get k fs) [ none ↦ null | some v ↦ v ]

-- `k in d`
unfoldable pub has_key : String → Fields → Bool
unfolding get
has_key k fs = elim (get k fs) [ none ↦ false | some v ↦ true ]

unfoldable pub keys : Fields → List String
keys end = []
keys (field k v fs) = k ∷ keys fs

unfoldable pub items : Items → List Json
items nil = []
items (cons v vs) = v ∷ items vs

-- `xs.issubset(ys)`
unfoldable pub is_subset : List String → List String → Bool
unfolding contains
is_subset [] ys = true
is_subset (x ∷ xs) ys = contains ys x && is_subset xs ys

-- `set(xs) == set(ys)`
unfoldable pub same_set : List String → List String → Bool
unfolding is_subset
same_set xs ys = is_subset xs ys && is_subset ys xs

-- `value == "text"`
unfoldable pub is_str : Json → String → Bool
is_str (str s) t = s == t
is_str _ t = false

-- `value == n` for an int literal: `True` is 1, and a float may be an int.
unfoldable pub is_int : Json → ℕ → Bool
unfolding float_equals_int
is_int (bool true) n = n == 1
is_int (bool false) n = n == 0
is_int (int (pos m)) n = m == n
is_int (float d) n = float_equals_int n d
is_int _ n = false

-- A list or a dict has no hash: to look it up in a set or a dict raises `TypeError`.
unfoldable pub is_hashable : Json → Bool
is_hashable (arr vs) = false
is_hashable (obj fs) = false
is_hashable _ = true

-- `value in {texts}`
unfoldable pub in_set : Json → List String → Result Bool
unfolding contains
in_set (str s) texts = ok (contains texts s)
in_set (arr vs) texts = err type_error
in_set (obj fs) texts = err type_error
in_set _ texts = ok false

-- A datetime by the microseconds from the start of year 1 to its instant, and its offset from UTC
-- in microseconds (`none` for a naive one).
pub record Datetime : Type 0 where
  pub instant : ℕ
  pub utcoffset : Option ℤ

-- `utcoffset() == timedelta(0)`
unfoldable pub is_utc : Datetime → Bool
is_utc d = elim d.utcoffset [ none ↦ false | some z ↦ elim z [ pos n ↦ n == 0 | negsuc n ↦ false ] ]

-- Text routines of Python's library. `none` stands for a `ValueError`.
pub record Library : Type 0 where
  pub loads : String → Result Json
  -- `json.dumps` with `sort_keys` and the compact separators, and the same with
  -- `ensure_ascii=False`.
  pub dumps : Json → String
  pub dumps_unicode : Json → String
  pub float_of : String → Option Double
  pub fromisoformat : String → Option Datetime
  -- `isoformat(timespec="milliseconds").replace("+00:00", "Z")`
  pub isoformat_z : Datetime → String
