-- ===== src/Prelude/Results.antt =====
-- A Python function that may raise returns a `Result`. The exceptions are those that the platform's
-- code raises or tells apart.
use Prim.Native.String.{String}
use mathlib.Core.Path.{◌≡◌, refl}
use mathlib.Core.Logic.{◌⊎◌, inl, inr}
use mathlib.Core.Bool.{Bool, true, false, not}

pub data Exception : Type 0 where
  value_error : String → Exception
  type_error : Exception
  key_error : String → Exception
  json_decode_error : Exception
  unicode_error : Exception
  runtime_error : String → Exception
  kuksa_unavailable : Exception
  provider_credential_unavailable : Exception
  advisory_error : String → Exception
  manifest_error : String → Exception
  prebuild_error : String → Exception
  artifact_error : String → Exception
  other_error : Exception

pub data Result {ℓ} (A : Type ℓ) : Type ℓ where
  ok : A → Result A
  err : Exception → Result A

-- `except ValueError`: with its subclasses.
abbrev pub is_value_error : Exception → Bool
is_value_error (value_error _) = true
is_value_error json_decode_error = true
is_value_error unicode_error = true
is_value_error (advisory_error _) = true
is_value_error (manifest_error _) = true
is_value_error (prebuild_error _) = true
is_value_error (artifact_error _) = true
is_value_error _ = false

module _ {ℓ κ} {A : Type ℓ} {B : Type κ} where
  infixl 5 ◌>>=◌
  -- The rest of a function, from where the value of a call is there. An exception skips it.
  abbrev pub ◌>>=◌ : Result A → (A → Result B) → Result B
  err raised >>= rest = err raised
  ok value >>= rest = rest value

  -- A function that returned got through the call and through the rest.
  pub >>=-eq-ok :
      (call : Result A) (rest : A → Result B) {out : B}
      → (call >>= rest) ≡ ok out
      → (value : A) × (call ≡ ok value) × (rest value ≡ ok out)
  >>=-eq-ok (err raised) rest done = cc
  >>=-eq-ok (ok value) rest done = (value, refl, done)

infixl 5 ◌>>◌
-- A call whose value is dropped.
abbrev pub ◌>>◌ {ℓ} : {B : Type ℓ} → Result (Unit {0}) → Result B → Result B
check >> rest = check >>= λ dropped. rest

-- `if bad: raise e`
abbrev pub raise_if : Bool → Exception → Result (Unit {0})
raise_if true e = err e
raise_if false e = ok tt

pub raise_if-eq-ok : (b : Bool) (e : Exception) → raise_if b e ≡ ok tt → b ≡ false
raise_if-eq-ok true e h = cc
raise_if-eq-ok false e h = refl

pub not_raised : (b : Bool) (e : Exception) → raise_if (not b) e ≡ ok tt → b ≡ true
not_raised true e h = refl
not_raised false e h = cc

pub ok-injective {ℓ} : {A : Type ℓ} {a b : A} → ok a ≡ ok b → a ≡ b
ok-injective h = cc

-- A computed result, split with its equation.
pub Result-cases {ℓ} :
    {A : Type ℓ} (r : Result A) → ((a : A) × (r ≡ ok a)) ⊎ ((e : Exception) × (r ≡ err e))
Result-cases (ok a) = inl (a, refl)
Result-cases (err e) = inr (e, refl)
