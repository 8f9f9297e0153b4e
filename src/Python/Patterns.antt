-- ===== src/Python/Patterns.antt =====
-- The regular expressions of the provider, as recognisers of code points: each pattern is a row of
-- character classes, or a bounded repetition of one.
use aos_vehicle_platform.Prelude.{ℕ, zero, suc, Bool, true, false, ◌&&◌, ◌||◌, List, [], ◌∷◌, ◌++◌}
use aos_vehicle_platform.Prelude.{String, ◌==◌, nat_eq, leb}
use aos_vehicle_platform.Prelude.Lists.{length}
use aos_vehicle_platform.Prelude.Text.{codes, every, is_digit}

abbrev Class : Type 0
Class = ℕ → Bool

-- `[0-9a-f]`
unfoldable pub is_hex : Class
unfolding is_digit
is_hex c = is_digit c || leb b'a' c && leb c b'f'

is_char : ℕ → Class
is_char d c = c == d

-- `[A-Za-z0-9._-]`
unfoldable pub is_model_char : Class
unfolding is_digit
is_model_char c =
    is_digit c
    || leb b'a' c && leb c b'z'
    || leb b'A' c && leb c b'Z'
    || c == b'.'
    || c == b'_'
    || c == b'-'

-- `[A-Za-z0-9._:-]`
unfoldable pub is_decision_char : Class
unfolding is_model_char
is_decision_char c = is_model_char c || c == b':'

-- One character for each class, and no more.
unfoldable pub fits : List Class → List ℕ → Bool
fits [] [] = true
fits [] (c ∷ cs) = false
fits (p ∷ ps) [] = false
fits (p ∷ ps) (c ∷ cs) = p c && fits ps cs

repeated : ℕ → Class → List Class
repeated zero p = []
repeated (suc n) p = p ∷ repeated n p

uuid_row : Class → Class → List Class
uuid_row version variant =
    repeated 8 is_hex
    ++ (is_char b'-' ∷ repeated 4 is_hex)
    ++ (is_char b'-' ∷ version ∷ repeated 3 is_hex)
    ++ (is_char b'-' ∷ variant ∷ repeated 3 is_hex)
    ++ (is_char b'-' ∷ repeated 12 is_hex)

-- `UUID` of advisory.py: `[1-5]` for the version and `[89ab]` for the variant.
unfoldable pub is_uuid : String → Bool
unfolding fits repeated uuid_row is_char is_hex
is_uuid s =
    fits
      (uuid_row (λ c. leb b'1' c && leb c b'5')
        (λ c. c == b'8' || c == b'9' || c == b'a' || c == b'b'))
      (codes s)

-- `str(uuid.UUID(value)) == value`: what `str` writes is 32 lower-case digits in five groups.
unfoldable pub is_canonical_uuid : String → Bool
unfolding fits repeated uuid_row is_char is_hex
is_canonical_uuid s = fits (uuid_row is_hex is_hex) (codes s)

-- A class repeated `low` to `high` times.
bounded_run : ℕ → ℕ → Class → List ℕ → Bool
bounded_run low high p cs = leb low (length cs) && leb (length cs) high && every p cs

-- `DECISION_ID`
unfoldable pub is_decision_id : String → Bool
unfolding bounded_run every is_decision_char
is_decision_id s = bounded_run 1 96 is_decision_char (codes s)

-- `MODEL_VERSION`
unfoldable pub is_model_version : String → Bool
unfolding bounded_run every is_model_char
is_model_version s = bounded_run 1 64 is_model_char (codes s)

-- Digits, and a dot before each further group: `more` groups are to come, and `some_digit` says
-- that the present group has a digit.
semver_from : ℕ → Bool → List ℕ → Bool
semver_from more some_digit [] = more == 0 && some_digit
semver_from zero some_digit (c ∷ cs) = is_digit c && semver_from zero true cs
semver_from (suc more) some_digit (c ∷ cs) =
    let digit = semver_from (suc more) true cs in
    let dot = semver_from more false cs in
    elim (is_digit c) [ true ↦ digit | false ↦ c == b'.' && some_digit && dot ]

-- `SEMVER`
unfoldable pub is_semver : String → Bool
unfolding semver_from is_digit
is_semver s = semver_from 2 false (codes s)

-- `[0-9a-f]{64}`
unfoldable pub is_sha256 : String → Bool
unfolding every is_hex
is_sha256 s = length (codes s) == 64 && every is_hex (codes s)
