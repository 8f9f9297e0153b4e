-- ===== src/Fota/Tar/Sorted.antt =====
-- `sorted` on the items of a dict and on texts keeps what they hold.
use aos_vehicle_platform.Prelude.{
  String, ◌≡◌, ◌≢◌, refl, sym, none, List, [], ◌∷◌, arith, string_eq, if-elim,
}
use aos_vehicle_platform.Prelude.Lists.{All}
use aos_vehicle_platform.Prelude.Text.{codes, codes_le, sorted, insert_sorted}
use aos_vehicle_platform.Prelude.Dict.{Dict, lookup}
use aos_vehicle_platform.Fota.Tar.{insert_item, sort_items}

-- No key stands twice.
abbrev pub Distinct {ℓ} : {V : Type ℓ} → Dict String V → Type ℓ
Distinct [] = Unit
Distinct ((k, v) ∷ d) = (lookup k d ≡ none) × Distinct d

module _ {ℓ} {V : Type ℓ} where
  insert_item-All :
      (P : String × V → Type 0) (item : String × V) (d : Dict String V)
      → P item
      → All P d
      → All P (insert_item item d)
  unfolding insert_item
  insert_item-All P item [] h hs = (h, tt)
  insert_item-All P (k, v) ((j, w) ∷ d) h hs =
      if-elim (All P) (codes_le (codes k) (codes j)) (h, hs)
        (hs.0, insert_item-All P (k, v) d h hs.1)

  pub sort_items-All :
      (P : String × V → Type 0) (d : Dict String V) → All P d → All P (sort_items d)
  unfolding sort_items
  sort_items-All P [] h = tt
  sort_items-All P (item ∷ d) h = insert_item-All P item (sort_items d) h.0 (sort_items-All P d h.1)

  pub lookup-cons_none :
      (j k : String) (v : V) (d : Dict String V)
      → lookup j ((k, v) ∷ d) ≡ none
      → (j ≢ k) × (lookup j d ≡ none)
  unfolding lookup
  lookup-cons_none j k v d h = ((λ e. absurd (ground arith)), ground arith)

  lookup-cons :
      (j k : String) (v : V) (d : Dict String V)
      → j ≢ k
      → lookup j d ≡ none
      → lookup j ((k, v) ∷ d) ≡ none
  unfolding lookup
  lookup-cons j k v d ne h = ground arith

  lookup-insert_item :
      (j k : String) (v : V) (d : Dict String V)
      → j ≢ k
      → lookup j d ≡ none
      → lookup j (insert_item (k, v) d) ≡ none
  unfolding insert_item
  lookup-insert_item j k v [] ne h = lookup-cons j k v [] ne h
  lookup-insert_item j k v ((i, w) ∷ d) ne h =
      let (other, rest) = lookup-cons_none j i w d h in
      if-elim {A = Dict String V} (λ (m : Dict String V). lookup j m ≡ none)
        (codes_le (codes k) (codes i)) (lookup-cons j k v ((i, w) ∷ d) ne h)
        (lookup-cons j i w (insert_item (k, v) d) other (lookup-insert_item j k v d ne rest))

  insert_item-Distinct :
      (k : String) (v : V) (d : Dict String V)
      → lookup k d ≡ none
      → Distinct d
      → Distinct (insert_item (k, v) d)
  unfolding insert_item lookup
  insert_item-Distinct k v [] h hs = (refl, tt)
  insert_item-Distinct k v ((j, w) ∷ d) h hs =
      let (other, rest) = lookup-cons_none k j w d h in
      if-elim {A = Dict String V} Distinct (codes_le (codes k) (codes j)) (h, hs)
        (lookup-insert_item j k v d (λ e. other (sym e)) hs.0, insert_item-Distinct k v d rest hs.1)

  lookup-sort_items :
      (k : String) (d : Dict String V) → lookup k d ≡ none → lookup k (sort_items d) ≡ none
  unfolding sort_items
  lookup-sort_items k [] h = h
  lookup-sort_items k ((j, w) ∷ d) h =
      let (other, rest) = lookup-cons_none k j w d h in
      lookup-insert_item k j w (sort_items d) other (lookup-sort_items k d rest)

  pub sort_items-Distinct : (d : Dict String V) → Distinct d → Distinct (sort_items d)
  unfolding sort_items
  sort_items-Distinct [] h = tt
  sort_items-Distinct ((k, v) ∷ d) h =
      insert_item-Distinct k v (sort_items d) (lookup-sort_items k d h.0)
        (sort_items-Distinct d h.1)

insert_sorted-All :
    (P : String → Type 0) (s : String) (ss : List String)
    → P s
    → All P ss
    → All P (insert_sorted s ss)
unfolding insert_sorted
insert_sorted-All P s [] h hs = (h, tt)
insert_sorted-All P s (t ∷ ts) h hs =
    if-elim (All P) (codes_le (codes s) (codes t)) (h, hs) (hs.0, insert_sorted-All P s ts h hs.1)

pub sorted-All : (P : String → Type 0) (ss : List String) → All P ss → All P (sorted ss)
unfolding sorted
sorted-All P [] h = tt
sorted-All P (s ∷ ss) h = insert_sorted-All P s (sorted ss) h.0 (sorted-All P ss h.1)
