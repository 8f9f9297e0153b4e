-- ===== src/Prelude/Text.antt =====
-- Text as code points, for the code that walks characters.
use Prim.Native.Nat.{ℕ, zero, suc, ◌/◌, ◌%◌, compare, Ordering}
use Prim.Native.Char.{code}
use Prim.Native.String.{String, ◌++◌ as ◌<>◌}
use mathlib.Core.Option.{Option, none, some}
use mathlib.Core.Bool.{Bool, true, false, ◌&&◌, cond}
use mathlib.Core.List.{List, [], ◌∷◌}
use aos_vehicle_platform.Prelude.Tests.{ltb, leb}

abbrev pub codes : String → List ℕ
codes String.[] = []
codes (String.◌∷◌ c s) = code c ∷ codes s

-- `all(p(character) for character in text)`
unfoldable pub every : (ℕ → Bool) → List ℕ → Bool
every p [] = true
every p (c ∷ cs) = p c && every p cs

-- `s[:-1]`
unfoldable pub drop_last : String → String
drop_last String.[] = String.[]
drop_last (String.◌∷◌ c String.[]) = String.[]
drop_last (String.◌∷◌ c (String.◌∷◌ d s)) = String.◌∷◌ c (drop_last (String.◌∷◌ d s))

-- `s.endswith("Z")`
unfoldable pub ends_with_z : String → Bool
ends_with_z String.[] = false
ends_with_z (String.◌∷◌ c String.[]) = elim (compare (code c) b'Z') [
  | Ordering.eq ↦ true
  | _ ↦ false
]
ends_with_z (String.◌∷◌ c (String.◌∷◌ d s)) = ends_with_z (String.◌∷◌ d s)

strip : String → String → Option String
strip String.[] s = some s
strip (String.◌∷◌ c p) String.[] = none
strip (String.◌∷◌ c p) (String.◌∷◌ d s) =
    let rest = strip p s in elim (compare (code c) (code d)) [ Ordering.eq ↦ rest | _ ↦ none ]

-- `s.removeprefix(p)`
unfoldable pub removeprefix : String → String → String
unfolding strip
removeprefix p s = elim (strip p s) [ none ↦ s | some rest ↦ rest ]

-- Python's order of texts is that of their code points.
unfoldable pub codes_le : List ℕ → List ℕ → Bool
codes_le [] ds = true
codes_le (c ∷ cs) [] = false
codes_le (c ∷ cs) (d ∷ ds) =
    let rest = codes_le cs ds in
    elim (ltb c d) [ true ↦ true | false ↦ elim (ltb d c) [ true ↦ false | false ↦ rest ] ]

unfoldable pub insert_sorted : String → List String → List String
insert_sorted s [] = s ∷ []
insert_sorted s (t ∷ ts) =
    let rest = t ∷ insert_sorted s ts in cond (codes_le (codes s) (codes t)) (s ∷ t ∷ ts) rest

-- `sorted(texts)`
unfoldable pub sorted : List String → List String
unfolding insert_sorted codes_le
sorted [] = []
sorted (s ∷ ss) = insert_sorted s (sorted ss)

unfoldable pub is_digit : ℕ → Bool
is_digit c = leb b'0' c && leb c b'9'

digit_text : ℕ → String
digit_text zero = "0"
digit_text (suc zero) = "1"
digit_text (suc (suc zero)) = "2"
digit_text (suc (suc (suc zero))) = "3"
digit_text (suc (suc (suc (suc zero)))) = "4"
digit_text (suc (suc (suc (suc (suc zero))))) = "5"
digit_text (suc (suc (suc (suc (suc (suc zero)))))) = "6"
digit_text (suc (suc (suc (suc (suc (suc (suc zero))))))) = "7"
digit_text (suc (suc (suc (suc (suc (suc (suc (suc zero)))))))) = "8"
digit_text (suc (suc (suc (suc (suc (suc (suc (suc (suc n))))))))) = "9"

decimal_onto : ℕ → ℕ → String → String
decimal_onto zero n acc = acc
decimal_onto (suc fuel) n acc =
    let more = decimal_onto fuel (n / 10) (digit_text (n % 10) <> acc) in
    elim (ltb n 10) [ true ↦ digit_text n <> acc | false ↦ more ]

-- `str(n)`; each round drops a digit, so `n + 1` rounds are enough.
unfoldable pub decimal : ℕ → String
unfolding decimal_onto digit_text
decimal n = decimal_onto (suc n) n ""
