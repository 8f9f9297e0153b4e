-- ===== src/Prelude/Dict.antt =====
-- Python's `dict`, in insertion order. `OrderedDict.move_to_end` and `popitem(last=False)` are here
-- too. Proofs elsewhere go by the laws.
use aos_vehicle_platform.Prelude.Equality.{Eq, ◌==◌, if◌then◌else◌}
use Prim.Native.Nat.{ℕ, suc, ◌+◌, ◌≤◌}
use mathlib.Core.Path.{◌≡◌, refl}
use mathlib.Core.Logic.{◌≢◌}
use mathlib.Core.Option.{Option, none, some}
use mathlib.Core.List.{List, [], ◌∷◌, ◌++◌}
use aos_vehicle_platform.Prelude.Tests.{ltb}
use native.Mathlib.Omega.{arith}
use aos_vehicle_platform.Prelude.Lists.{length}

abbrev pub Dict {ℓ κ} : Type ℓ → Type κ → Type (ℓ ⊔ κ)
Dict K V = List (K × V)

-- `while len(d) > capacity: d.popitem(last=False)`
unfoldable pub trim {ℓ} : {A : Type ℓ} → ℕ → List A → List A
trim capacity [] = []
trim capacity (x ∷ xs) =
    let rest = trim capacity xs in if ltb capacity (suc (length xs)) then rest else x ∷ xs

module _ {ℓ κ} {K : Type ℓ} {V : Type κ} ⦃e : Eq K⦄ where
  -- `d.get(k)`
  unfoldable pub lookup : K → Dict K V → Option V
  lookup k [] = none
  lookup k ((j, v) ∷ d) = if k == j then some v else lookup k d

  -- `d[k] = v`: a key that is there keeps its place.
  unfoldable pub insert : K → V → Dict K V → Dict K V
  insert k v [] = (k, v) ∷ []
  insert k v ((j, w) ∷ d) = if k == j then (j, v) ∷ d else (j, w) ∷ insert k v d

  -- `d.pop(k, None)`, `del d[k]`
  unfoldable pub erase : K → Dict K V → Dict K V
  erase k [] = []
  erase k ((j, w) ∷ d) = let rest = erase k d in if k == j then rest else (j, w) ∷ rest

  -- `d[k] = v; d.move_to_end(k)`
  unfoldable pub insert_last : K → V → Dict K V → Dict K V
  unfolding erase
  insert_last k v d = erase k d ++ ((k, v) ∷ [])

  pub lookup-nil : (k : K) → lookup k [] ≡ none
  unfolding lookup
  lookup-nil k = refl

  pub lookup-insert :
      (j k : K) (v : V) (d : Dict K V)
      → lookup j (insert k v d) ≡ (if j == k then some v else lookup j d)
  unfolding insert lookup
  lookup-insert j k v [] = refl
  lookup-insert j k v ((i, w) ∷ d) = ground (arith, lookup-insert j k v d)

  pub lookup-insert_eq : (j k : K) (v : V) (d : Dict K V) → j ≡ k → lookup j (insert k v d) ≡ some v
  lookup-insert_eq j k v d h = ground (arith, lookup-insert j k v d)

  pub lookup-insert_ne :
      (j k : K) (v : V) (d : Dict K V) → j ≢ k → lookup j (insert k v d) ≡ lookup j d
  lookup-insert_ne j k v d h = ground (arith, lookup-insert j k v d)

  pub lookup-erase :
      (j k : K) (d : Dict K V) → lookup j (erase k d) ≡ (if j == k then none else lookup j d)
  unfolding erase lookup
  lookup-erase j k [] = ground arith
  lookup-erase j k ((i, w) ∷ d) = ground (arith, lookup-erase j k d)

  pub lookup-erase_eq : (j k : K) (d : Dict K V) → j ≡ k → lookup j (erase k d) ≡ none
  lookup-erase_eq j k d h = ground (arith, lookup-erase j k d)

  pub lookup-erase_ne : (j k : K) (d : Dict K V) → j ≢ k → lookup j (erase k d) ≡ lookup j d
  lookup-erase_ne j k d h = ground (arith, lookup-erase j k d)

  lookup-append_single :
      (j k : K) (v : V) (d : Dict K V)
      → lookup j (d ++ ((k, v) ∷ []))
        ≡ elim (lookup j d) [ some w ↦ some w | none ↦ if j == k then some v else none ]
  unfolding lookup
  lookup-append_single j k v [] = refl
  lookup-append_single j k v ((i, w) ∷ d) = ground (arith, lookup-append_single j k v d)

  pub lookup-insert_last :
      (j k : K) (v : V) (d : Dict K V)
      → lookup j (insert_last k v d) ≡ (if j == k then some v else lookup j d)
  unfolding insert_last
  lookup-insert_last j k v d =
      ground (arith, lookup-append_single j k v (erase k d), lookup-erase j k d)

  lookup-drop_front :
      (k : K) (v : V) (c : ℕ) (d : Dict K V)
      → lookup k d ≡ none
      → lookup k (trim (suc c) (d ++ ((k, v) ∷ []))) ≡ some v
  unfolding lookup trim
  lookup-drop_front k v c [] h = ground arith
  lookup-drop_front k v c ((i, w) ∷ d) h =
      ground (arith, lookup-drop_front k v c d, lookup-append_single k k v d)

  -- The entry that was put last survives the trimming.
  pub lookup-trim_last :
      (k : K) (v : V) (c : ℕ) (d : Dict K V) → lookup k (trim (suc c) (insert_last k v d)) ≡ some v
  unfolding insert_last
  lookup-trim_last k v c d =
      lookup-drop_front k v c (erase k d) (ground (arith, lookup-erase k k d))

  pub length-erase : (k : K) (d : Dict K V) → length (erase k d) ≤ length d
  unfolding erase
  length-erase k [] = omega arith
  length-erase k ((i, w) ∷ d) = ground (arith, length-erase k d)

  -- A key that is there does not add an entry.
  pub length-insert_present :
      (k : K) (v : V) (d : Dict K V) → lookup k d ≢ none → length (insert k v d) ≡ length d
  unfolding insert lookup
  length-insert_present k v [] h = absurd (h refl)
  length-insert_present k v ((i, w) ∷ d) h = ground (arith, length-insert_present k v d)

  pub length-insert : (k : K) (v : V) (d : Dict K V) → length (insert k v d) ≤ length d + 1
  unfolding insert
  length-insert k v [] = omega arith
  length-insert k v ((i, w) ∷ d) = ground (arith, length-insert k v d)
