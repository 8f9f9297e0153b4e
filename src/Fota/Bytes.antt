-- ===== src/Fota/Bytes.antt =====
-- Python's `bytes`, and texts by their code points, as packaging/fota uses them.
use aos_vehicle_platform.Prelude.{
  ℕ, String, Bool, true, false, ◌&&◌, ◌||◌, List, [], ◌∷◌, ◌==◌, nat_eq, ◌≡◌, refl, arith,
}
use aos_vehicle_platform.Prelude.Text.{codes}

abbrev pub Bytes : Type 0
Bytes = List ℕ

-- The bytes of an ASCII literal.
abbrev pub ascii : String → Bytes
ascii text = codes text

-- `value.startswith(prefix)`
unfoldable pub starts_with : Bytes → Bytes → Bool
starts_with [] value = true
starts_with (c ∷ prefix) [] = false
starts_with (c ∷ prefix) (d ∷ value) = c == d && starts_with prefix value

-- `marker in value`
unfoldable pub occurs : Bytes → Bytes → Bool
unfolding starts_with
occurs marker [] = starts_with marker []
occurs marker (c ∷ value) = starts_with marker (c ∷ value) || occurs marker value

-- `any(marker in value for marker in markers)`
unfoldable pub any_occurs : List Bytes → Bytes → Bool
unfolding occurs
any_occurs [] value = false
any_occurs (marker ∷ markers) value = occurs marker value || any_occurs markers value

-- `a == b`
unfoldable pub same_bytes : Bytes → Bytes → Bool
same_bytes [] [] = true
same_bytes [] (d ∷ ds) = false
same_bytes (c ∷ cs) [] = false
same_bytes (c ∷ cs) (d ∷ ds) = c == d && same_bytes cs ds

pub same_bytes-eq : (a b : Bytes) → same_bytes a b ≡ true → a ≡ b
unfolding same_bytes
same_bytes-eq [] [] h = refl
same_bytes-eq [] (d ∷ ds) h = cc
same_bytes-eq (c ∷ cs) [] h = cc
same_bytes-eq (c ∷ cs) (d ∷ ds) h = ground (arith, same_bytes-eq cs ds)
