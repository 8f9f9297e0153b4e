-- ===== src/Bridge/Signal/Convert.antt =====
-- The converters of bridge.py keep their values in range, and percentages round trip.
use aos_vehicle_platform.Prelude.{
  ℕ, zero, suc, ◌≤◌, String, ◌≡◌, refl, Bool, true, false, ◌&&◌, ◌⊎◌, inl, inr, arith, ◌==◌, nat_eq,
  string_eq, Result, ok, err,
}
use aos_vehicle_platform.Prelude.Lists.{All}
use aos_vehicle_platform.Prelude.Text.{decimal}
use aos_vehicle_platform.Python.{Library, is_finite, is_negative}
use aos_vehicle_platform.Bridge.Signal.{
  Value, float, int, SignalSpec, finite_float, nonnegative_float, uint8_percent, base_signals,
}

abbrev pub IsFinite : Value → Type 0
IsFinite (float d) = is_finite d ≡ true
IsFinite (int n) = ⊥

abbrev pub IsNonnegative : Value → Type 0
IsNonnegative (float d) = (is_finite d ≡ true) × (is_negative d ≡ false)
IsNonnegative (int n) = ⊥

abbrev pub IsPercent : Value → Type 0
IsPercent (float d) = ⊥
IsPercent (int n) = n ≤ 100

uint8_percent-IsPercent : (raw : String) (v : Value) → uint8_percent raw ≡ ok v → IsPercent v
unfolding uint8_percent
uint8_percent-IsPercent raw v h = ground arith

finite_float-IsFinite :
    (py : Library) (raw : String) (v : Value) → finite_float py raw ≡ ok v → IsFinite v
unfolding finite_float
finite_float-IsFinite py raw v h = ground arith

nonnegative_float-IsNonnegative :
    (py : Library) (raw : String) (v : Value) → nonnegative_float py raw ≡ ok v → IsNonnegative v
unfolding nonnegative_float
nonnegative_float-IsNonnegative py raw v h = ground arith

is_percent : Value → ℕ → Bool
is_percent (float d) n = false
is_percent (int m) n = m == n

parses_back : ℕ → Bool
unfolding is_percent
parses_back n = elim (uint8_percent (decimal n)) [ ok v ↦ is_percent v n | err e ↦ false ]

holds_up_to : (ℕ → Bool) → ℕ → Bool
holds_up_to test zero = test zero
holds_up_to test (suc limit) = holds_up_to test limit && test (suc limit)

holds_up_to_lem :
    (test : ℕ → Bool) (limit x : ℕ) → holds_up_to test limit ≡ true → x ≤ limit → test x ≡ true
unfolding holds_up_to
holds_up_to_lem test zero x h le = ground arith
holds_up_to_lem test (suc limit) x h le = ground (arith, holds_up_to_lem test limit x)

percent_table : holds_up_to parses_back 100 ≡ true
unfolding holds_up_to parses_back uint8_percent decimal nat_eq string_eq
percent_table = refl

parses_back-eq : (n : ℕ) → parses_back n ≡ true → uint8_percent (decimal n) ≡ ok (int n)
unfolding parses_back is_percent
parses_back-eq n h = ground arith

-- A percentage from 0 to 100, printed in decimal, is read back as itself.
pub uint8_percent-decimal : (n : ℕ) → n ≤ 100 → uint8_percent (decimal n) ≡ ok (int n)
uint8_percent-decimal n h = parses_back-eq n (holds_up_to_lem parses_back 100 n percent_table h)

-- The three converters of the release profiles.
abbrev pub IsStandard : Library → (String → Result Value) → Type 0
IsStandard py convert =
    (convert ≡ finite_float py) ⊎ (convert ≡ nonnegative_float py) ⊎ (convert ≡ uint8_percent)

pub convert-IsInRange :
    (py : Library) (convert : String → Result Value) (raw : String) (v : Value)
    → IsStandard py convert
    → convert raw ≡ ok v
    → ((convert ≡ finite_float py) × IsFinite v)
      ⊎ ((convert ≡ nonnegative_float py) × IsNonnegative v)
      ⊎ ((convert ≡ uint8_percent) × IsPercent v)
convert-IsInRange py convert raw v (inl e) h = inl (e, finite_float-IsFinite py raw v (rw e at h))
convert-IsInRange py convert raw v (inr (inl e)) h =
    inr (inl (e, nonnegative_float-IsNonnegative py raw v (rw e at h)))
convert-IsInRange py convert raw v (inr (inr e)) h =
    inr (inr (e, uint8_percent-IsPercent raw v (rw e at h)))

abbrev pub HasStandard : Library → SignalSpec → Type 0
HasStandard py s = IsStandard py s.convert

pub base_signals-HasStandard : (py : Library) → All (HasStandard py) (base_signals py)
base_signals-HasStandard py =
    let n : IsStandard py (nonnegative_float py) = inr (inl refl) in
    let f : IsStandard py (finite_float py) = inl refl in
    let u : IsStandard py uint8_percent = inr (inr refl) in (n, (f, (f, (f, (u, (u, (f, tt)))))))
