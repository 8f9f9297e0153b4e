-- ===== src/Bridge/Signal.antt =====
-- bridge.py: signal values, their converters, and the table `SIGNALS`.
pub mod Convert
use aos_vehicle_platform.Prelude.{ℕ, ◌*◌, ◌+◌, ◌-◌, String, Bool, true, not, ◌&&◌}
use aos_vehicle_platform.Prelude.{
  none, some, List, [], ◌∷◌, Result, ok, err, value_error, ◌>>=◌, ◌>>◌,
}
use aos_vehicle_platform.Prelude.{raise_if, ◌≤◌, ◌||◌, ◌≡◌, ◌==◌, nat_eq, string_eq, leb, map}
use aos_vehicle_platform.Prelude.Text.{codes, every, is_digit, removeprefix}
use aos_vehicle_platform.Python.{
  Double, is_finite, is_negative, float_equals, float_equals_int, Library,
}

-- `float | int`
pub data Value : Type 0 where
  float : Double → Value
  int : ℕ → Value

unfoldable pub value_equals : Value → Value → Bool
unfolding float_equals float_equals_int
value_equals (float a) (float b) = float_equals a b
value_equals (int n) (float b) = float_equals_int n b
value_equals (float a) (int m) = float_equals_int m a
value_equals (int n) (int m) = n == m

-- The timestamp is the instant of an aware datetime in UTC, in microseconds.
pub record SignalValue : Type 0 where
  pub value : Value
  pub timestamp : ℕ

unfoldable pub signal_value_equals : SignalValue → SignalValue → Bool
unfolding value_equals
signal_value_equals a b = value_equals a.value b.value && a.timestamp == b.timestamp

pub record SignalSpec : Type 0 where
  pub path : String
  pub convert : String → Result Value

unfoldable pub relative_path : SignalSpec → String
relative_path signal = removeprefix "Vehicle." signal.path

unfoldable pub finite_double : Library → String → Result Double
finite_double py raw = elim (py.float_of raw) [
  | none ↦ err (value_error "could not convert string to float")
  | some value ↦ do raise_if (not (is_finite value)) (value_error "value must be finite"); ok value
]

unfoldable pub finite_float : Library → String → Result Value
unfolding finite_double
finite_float py raw = do value ← finite_double py raw; ok (float value)

unfoldable pub nonnegative_float : Library → String → Result Value
unfolding finite_double
nonnegative_float py raw = do
  value ← finite_double py raw
  raise_if (is_negative value) (value_error "speed must be non-negative")
  ok (float value)

-- `int(raw, 10)` on a text of ASCII digits.
unfoldable pub int_of_digits : ℕ → List ℕ → ℕ
int_of_digits acc [] = acc
int_of_digits acc (c ∷ cs) = int_of_digits (acc * 10 + (c - b'0')) cs

unfoldable pub uint8_percent : String → Result Value
unfolding int_of_digits every is_digit
uint8_percent raw = do
  raise_if (raw == "" || not (every is_digit (codes raw)))
      (value_error "percentage must be an unsigned decimal integer")
  let value = int_of_digits 0 (codes raw)
  raise_if (not (leb value 100)) (value_error "percentage must be between 0 and 100")
  ok (int value)

abbrev pub paths_of : List SignalSpec → List String
paths_of = map (λ (s : SignalSpec). s.path)

-- `SIGNALS`
abbrev pub base_signals : Library → List SignalSpec
base_signals py =
    record { path = "Vehicle.Speed"; convert = nonnegative_float py }
    ∷ record { path = "Vehicle.Acceleration.Longitudinal"; convert = finite_float py }
    ∷ record { path = "Vehicle.Acceleration.Lateral"; convert = finite_float py }
    ∷ record { path = "Vehicle.Acceleration.Vertical"; convert = finite_float py }
    ∷ record { path = "Vehicle.Chassis.Accelerator.PedalPosition"; convert = uint8_percent }
    ∷ record { path = "Vehicle.Chassis.Brake.PedalPosition"; convert = uint8_percent }
    ∷ record { path = "Vehicle.Chassis.Axle.Row1.SteeringAngle"; convert = finite_float py }
    ∷ []
