-- ===== src/Python/Floats.antt =====
-- Python floats: IEEE 754 binary64 numbers by their bits, with the tests that the provider makes.
use aos_vehicle_platform.Prelude.{ℕ, ◌*◌, ◌+◌, ◌-◌, ◌/◌, ◌%◌, ◌^◌, Bool, false, not, ◌&&◌, ◌||◌}
use aos_vehicle_platform.Prelude.{◌==◌, nat_eq, if◌then◌else◌, leb}

-- An IEEE 754 binary64 number by its bits.
pub record Double : Type 0 where
  pub bits : ℕ

abbrev pub exponent : Double → ℕ
exponent d = (d.bits / 2 ^ 52) % 2 ^ 11

abbrev pub mantissa : Double → ℕ
mantissa d = d.bits % 2 ^ 52

abbrev pub magnitude : Double → ℕ
magnitude d = d.bits % 2 ^ 63

-- `math.isfinite(value)`
unfoldable pub is_finite : Double → Bool
is_finite d = not (exponent d == 2047)

unfoldable pub is_nan : Double → Bool
is_nan d = exponent d == 2047 && not (mantissa d == 0)

-- `value < 0`
unfoldable pub is_negative : Double → Bool
unfolding is_nan
is_negative d = leb (2 ^ 63) d.bits && not (magnitude d == 0) && not (is_nan d)

-- `a == b` of two floats: NaN differs from all, and the two zeros agree.
unfoldable pub float_equals : Double → Double → Bool
unfolding is_nan
float_equals a b =
    not (is_nan a) && not (is_nan b) && (a.bits == b.bits || magnitude a == 0 && magnitude b == 0)

-- `n == d` of a non-negative int and a float, by their exact values.
unfoldable pub float_equals_int : ℕ → Double → Bool
float_equals_int n d =
    if exponent d == 2047
    then false
    else if magnitude d == 0
    then n == 0
    else if leb (2 ^ 63) d.bits
    then false
    else if exponent d == 0
    then false
    else if leb 1075 (exponent d)
    then n == (mantissa d + 2 ^ 52) * 2 ^ (exponent d - 1075)
    else n * 2 ^ (1075 - exponent d) == mantissa d + 2 ^ 52
