-- ===== src/Fota/Paths/Parents.antt =====
-- The loop of `_ustar` over the parents of a name.
use aos_vehicle_platform.Prelude.{
  ℕ, zero, suc, ◌-◌, ◌≤◌, String, ◌≡◌, ◌≢◌, refl, sym, ap, ◌∙◌, subst, false, some, List, [], ◌∷◌,
  arith, ◌==◌, string_eq, contains, if-elim, Bool-cases, inl, inr,
}
use aos_vehicle_platform.Prelude.Lists.{length, All}
use aos_vehicle_platform.Fota.Paths.{
  is_empty, parts_of, is_absolute, PosixPath, posix_path, is_unsafe, drop_final, parent, join, add,
  add_parents,
}
use aos_vehicle_platform.Fota.Paths.Laws.{
  IsPart, parts_of-IsPart, parts_of_empty, parts_of-join, is_absolute-join, is_unsafe_lem,
  is_unsafe-down,
}

-- The texts of the `count` longest beginnings, the longest first.
unfoldable pub climb : ℕ → List String → List String → List String
climb zero parts names = names
climb (suc count) parts names = climb count (drop_final parts) (add (join parts) names)

length-drop_final : (p : String) (ps : List String) → length (drop_final (p ∷ ps)) ≡ length ps
length-drop_final p [] = omega arith
length-drop_final p (q ∷ ps) = omega (arith, length-drop_final q ps)

length-drop_final_sub : (ps : List String) → length (drop_final ps) ≡ length ps - 1
length-drop_final_sub [] = omega arith
length-drop_final_sub (p ∷ ps) = omega (arith, length-drop_final p ps)

drop_final-All : (ps : List String) → All IsPart ps → All IsPart (drop_final ps)
drop_final-All [] h = tt
drop_final-All (p ∷ []) h = tt
drop_final-All (p ∷ q ∷ ps) h = (h.0, drop_final-All (q ∷ ps) h.1)

parts_of-dot : parts_of "." ≡ []
unfolding parts_of string_eq
parts_of-dot = refl

cons-ne-nil : (p : String) (ps : List String) → p ∷ ps ≢ []
cons-ne-nil p ps h = cc

dot-ne-join : (p : String) (ps : List String) → All IsPart (p ∷ ps) → join (p ∷ ps) ≢ "."
dot-ne-join p ps h e =
    cons-ne-nil p ps (sym (parts_of-join (p ∷ ps) h) ∙ ap parts_of e ∙ parts_of-dot)

is_dot-join : (p : String) (ps : List String) → All IsPart (p ∷ ps) → (join (p ∷ ps) == ".") ≡ false
is_dot-join p ps h = ground (arith, dot-ne-join p ps h)

relative : List String → PosixPath
relative parts = record { absolute = false; parts = parts }

add_parents-step :
    (fuel : ℕ) (p : String) (ps names : List String)
    → All IsPart (p ∷ ps)
    → add_parents (suc fuel) (relative (p ∷ ps)) names
      ≡ add_parents fuel (relative (drop_final (p ∷ ps))) (add (join (p ∷ ps)) names)
unfolding add_parents relative
add_parents-step fuel p ps names h = rw (is_dot-join p ps h, add_parents) refl

-- On a relative path the loop ends, with one round for each part and one to see the end.
add_parents-end :
    (fuel : ℕ) (names : List String) → add_parents (suc fuel) (relative []) names ≡ some names
unfolding add_parents relative string_eq
add_parents-end fuel names = refl

add_parents-relative :
    (fuel count : ℕ) (parts names : List String)
    → All IsPart parts
    → length parts ≡ count
    → count ≤ fuel
    → add_parents (suc fuel) (relative parts) names ≡ some (climb count parts names)
unfolding climb
add_parents-relative fuel zero [] names h e enough = add_parents-end fuel names
add_parents-relative fuel (suc count) [] names h e enough = absurd (omega arith)
add_parents-relative fuel zero (p ∷ ps) names h e enough = absurd (omega arith)
add_parents-relative zero (suc count) (p ∷ ps) names h e enough = absurd (omega arith)
add_parents-relative (suc fuel) (suc count) (p ∷ ps) names h e enough =
    add_parents-step (suc fuel) p ps names h
    ∙ add_parents-relative fuel count (drop_final (p ∷ ps)) (add (join (p ∷ ps)) names)
        (drop_final-All (p ∷ ps) h) (omega (arith, length-drop_final p ps)) (omega arith)

parent-relative :
    (name : String)
    → is_absolute name ≡ false
    → parent (posix_path name) ≡ relative (drop_final (parts_of name))
unfolding parent posix_path relative
parent-relative name rel = ap (λ b. record { absolute = b; parts = drop_final (parts_of name) }) rel

-- The loop over the parents of a relative name ends, whatever fuel there is beyond one round for each
-- part of the name, and has added the texts of the name's beginnings, the longest first, but not the
-- name itself.
pub add_parents_terminates :
    (name : String) (fuel : ℕ) (names : List String)
    → is_absolute name ≡ false
    → length (parts_of name) ≤ fuel
    → add_parents (suc fuel) (parent (posix_path name)) names
      ≡ some (climb (length (parts_of name) - 1) (drop_final (parts_of name)) names)
add_parents_terminates name fuel names rel enough =
    subst
      (λ path.
        add_parents (suc fuel) path names
        ≡ some (climb (length (parts_of name) - 1) (drop_final (parts_of name)) names))
      (sym (parent-relative name rel))
      (add_parents-relative fuel (length (parts_of name) - 1) (drop_final (parts_of name)) names
        (drop_final-All (parts_of name) (parts_of-IsPart name))
        (length-drop_final_sub (parts_of name)) (omega arith))

-- A directory that `_members` passes over.
pub record IsSafe (name : String) : Type 0 where
  pub safe : is_unsafe name ≡ false
  pub named : is_empty name ≡ false

join-named :
    (p : String) (ps : List String) → All IsPart (p ∷ ps) → is_empty (join (p ∷ ps)) ≡ false
join-named p ps h = elim (Bool-cases (is_empty (join (p ∷ ps)))) [
  | inl e ↦
      absurd (cons-ne-nil p ps (sym (parts_of-join (p ∷ ps) h) ∙ parts_of_empty (join (p ∷ ps)) e))
  | inr named ↦ named
]

join-IsSafe :
    (p : String) (ps : List String)
    → All IsPart (p ∷ ps)
    → contains (p ∷ ps) ".." ≡ false
    → IsSafe (join (p ∷ ps))
join-IsSafe p ps h down = record {
  safe =
      is_unsafe_lem (join (p ∷ ps)) (is_absolute-join (p ∷ ps) h)
        (ap (λ parts. contains parts "..") (parts_of-join (p ∷ ps) h) ∙ down);
  named = join-named p ps h;
}

add-All :
    (name : String) (names : List String)
    → IsSafe name
    → All IsSafe names
    → All IsSafe (add name names)
unfolding add
add-All name names h hs = if-elim (All IsSafe) (contains names name) hs (h, hs)

contains-drop_final :
    (ps : List String) (name : String)
    → contains ps name ≡ false
    → contains (drop_final ps) name ≡ false
unfolding contains
contains-drop_final [] name h = refl
contains-drop_final (p ∷ []) name h = refl
contains-drop_final (p ∷ q ∷ ps) name h = ground (arith, contains-drop_final (q ∷ ps) name)

climb-All :
    (count : ℕ) (parts names : List String)
    → All IsPart parts
    → contains parts ".." ≡ false
    → length parts ≡ count
    → All IsSafe names
    → All IsSafe (climb count parts names)
unfolding climb
climb-All zero parts names h down e safe = safe
climb-All (suc count) [] names h down e safe = absurd (omega arith)
climb-All (suc count) (p ∷ ps) names h down e safe =
    climb-All count (drop_final (p ∷ ps)) (add (join (p ∷ ps)) names) (drop_final-All (p ∷ ps) h)
      (contains-drop_final (p ∷ ps) ".." down) (omega (arith, length-drop_final p ps))
      (add-All (join (p ∷ ps)) names (join-IsSafe p ps h down) safe)

-- Every directory that the loop adds for a safe name is one that `_members` passes over.
pub parents-All :
    (name : String) (names : List String)
    → is_unsafe name ≡ false
    → All IsSafe names
    → All IsSafe (climb (length (parts_of name) - 1) (drop_final (parts_of name)) names)
parents-All name names h safe =
    climb-All (length (parts_of name) - 1) (drop_final (parts_of name)) names
      (drop_final-All (parts_of name) (parts_of-IsPart name))
      (contains-drop_final (parts_of name) ".." (is_unsafe-down name h))
      (length-drop_final_sub (parts_of name)) safe
