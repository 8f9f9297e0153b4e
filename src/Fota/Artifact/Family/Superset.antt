-- ===== src/Fota/Artifact/Family/Superset.antt =====
-- `validate_family` accepts exactly the families that grow.
use aos_vehicle_platform.Prelude.{
  String, ◌≡◌, ◌↔◌, refl, sym, ◌∙◌, true, false, not, ◌&&◌, List, [], ◌∷◌, arith, ◌==◌, nat_eq,
  string_eq, contains, Result, ok, artifact_error, raise_if, ◌>>◌, >>=-eq-ok, Bool-cases, inl, inr,
}
use aos_vehicle_platform.Prelude.Lists.{length}
use aos_vehicle_platform.Prelude.Dict.{Dict, lookup}
use aos_vehicle_platform.Python.{Json, Items, items, is_subset, same_set}
use aos_vehicle_platform.Python.Equal.Laws.{is_subset-mem}
use aos_vehicle_platform.Fota.Documents.{content_of, file_names}
use aos_vehicle_platform.Fota.Artifact.Family.{
  len, truthy, published, endpoints_of, published_paths, strict_subset, check_paths,
  check_no_endpoints, check_endpoints, validate_family,
}

-- What is in one set is in the other.
abbrev pub Within : List String → List String → Type 0
Within xs ys = (x : String) → (contains xs x && contains ys x) ≡ contains xs x

-- The two sets are one.
abbrev pub Same : List String → List String → Type 0
Same xs ys = (x : String) → contains xs x ≡ contains ys x

-- The second set has all of the first, and something more.
abbrev pub Grows : List String → List String → Type 0
Grows xs ys = Within xs ys × ((x : String) × (contains ys x ≡ true) × (contains xs x ≡ false))

is_subset-Within : (xs ys : List String) → is_subset xs ys ≡ true → Within xs ys
is_subset-Within xs ys h x = ground (arith, is_subset-mem xs ys x h)

-- What is missing from the second list, if it has not all of the first.
missing :
    (xs ys : List String)
    → is_subset xs ys ≡ false
    → (x : String) × (contains xs x ≡ true) × (contains ys x ≡ false)
unfolding is_subset contains
missing [] ys h = cc
missing (z ∷ xs) ys h = elim (Bool-cases (contains ys z)) [
  | inl there ↦ let (x, m, gone) = missing xs ys (ground arith) in (x, ground arith, gone)
  | inr gone ↦ (z, ground arith, gone)
]

Within-is_subset : (xs ys : List String) → Within xs ys → is_subset xs ys ≡ true
Within-is_subset xs ys h = elim (Bool-cases (is_subset xs ys)) [
  | inl is ↦ is
  | inr lacks ↦ let (x, there, gone) = missing xs ys lacks in absurd (ground (arith, h x))
]

strict_subset-Grows : (xs ys : List String) → strict_subset xs ys ≡ true → Grows xs ys
unfolding strict_subset
strict_subset-Grows xs ys h = (is_subset-Within xs ys (ground arith), missing ys xs (ground arith))

not-is_subset :
    (xs ys : List String) (x : String)
    → contains ys x ≡ true
    → contains xs x ≡ false
    → is_subset ys xs ≡ false
not-is_subset xs ys x m gone = ground (arith, is_subset-mem ys xs x)

Grows-strict_subset : (xs ys : List String) → Grows xs ys → strict_subset xs ys ≡ true
unfolding strict_subset
Grows-strict_subset xs ys h =
    rw (Within-is_subset xs ys h.0, not-is_subset xs ys h.1.0 h.1.1 h.1.2) refl

same_set-Same : (xs ys : List String) → same_set xs ys ≡ true → Same xs ys
unfolding same_set
same_set-Same xs ys h x =
    ground (arith, is_subset-mem xs ys x (ground arith), is_subset-mem ys xs x (ground arith))

Same-Within : (xs ys : List String) → Same xs ys → Within xs ys
Same-Within xs ys h x = ground (arith, h x)

Same-same_set : (xs ys : List String) → Same xs ys → same_set xs ys ≡ true
unfolding same_set
Same-same_set xs ys h =
    rw
      (
        Within-is_subset xs ys (Same-Within xs ys h),
        Within-is_subset ys xs (Same-Within ys xs (λ x. sym (h x))),
      )
      refl

-- What a manifest says that its release publishes and offers.
pub record Outputs : Type 0 where
  pub paths : List String
  pub endpoints : Items

abbrev pub HasOutputs : Json → Outputs → Type 0
HasOutputs manifest o =
    (published manifest ≡ ok o.paths) × (endpoints_of manifest ≡ ok (Json.arr o.endpoints))

-- The patch releases of v1 publish one set of paths, v2 adds to it and v3 to that, and only v3 has
-- advisory endpoints, two of them.
pub record IsFamily (o1 o14 o15 o2 o3 : Outputs) : Type 0 where
  pub same14 : Same o1.paths o14.paths
  pub same15 : Same o14.paths o15.paths
  pub grows2 : Grows o15.paths o2.paths
  pub grows3 : Grows o2.paths o3.paths
  pub closed1 : o1.endpoints ≡ Items.nil
  pub closed14 : o14.endpoints ≡ Items.nil
  pub closed15 : o15.endpoints ≡ Items.nil
  pub closed2 : o2.endpoints ≡ Items.nil
  pub two : length (items o3.endpoints) ≡ 2

abbrev pub family : Json → Json → Json → Json → Json → Dict String Json
family m1 m14 m15 m2 m3 =
    ("1.0.0", m1) ∷ ("1.0.14", m14) ∷ ("1.0.15", m15) ∷ ("2.0.0", m2) ∷ ("3.0.0", m3) ∷ []

closed : Items → String → Result (Unit {0})
closed endpoints message = raise_if (truthy (Json.arr endpoints)) (artifact_error message)

closed_v1 : Items → Items → Items → Result (Unit {0})
closed_v1 e1 e14 e15 = do
  closed e1 "VDP v1 exposes an advisory endpoint"
  closed e14 "VDP v1 exposes an advisory endpoint"
  closed e15 "VDP v1 exposes an advisory endpoint"
  ok tt

check_counts : Items → Items → Items → Items → Items → Result (Unit {0})
unfolding closed_v1 closed
check_counts e1 e14 e15 e2 e3 = do
  closed_v1 e1 e14 e15
  closed e2 "VDP v2 exposes an advisory endpoint" >> ok tt
  raise_if (not (length (items e3) == 2))
      (artifact_error "VDP v3 advisory endpoint inventory mismatch")

not-truthy : (vs : Items) → truthy (Json.arr vs) ≡ false → vs ≡ Items.nil
unfolding truthy
not-truthy Items.nil h = refl
not-truthy (Items.cons v vs) h = cc

check_counts-facts :
    (e1 e14 e15 e2 e3 : Items)
    → check_counts e1 e14 e15 e2 e3 ≡ ok tt
    → (truthy (Json.arr e1) ≡ false)
      × (truthy (Json.arr e14) ≡ false)
      × (truthy (Json.arr e15) ≡ false)
      × (truthy (Json.arr e2) ≡ false)
      × (length (items e3) ≡ 2)
unfolding check_counts
check_counts-facts e1 e14 e15 e2 e3 h =
    (ground arith, ground arith, ground arith, ground arith, ground arith)

check_counts-ok :
    (e1 e14 e15 e2 e3 : Items)
    → e1 ≡ Items.nil
    → e14 ≡ Items.nil
    → e15 ≡ Items.nil
    → e2 ≡ Items.nil
    → length (items e3) ≡ 2
    → check_counts e1 e14 e15 e2 e3 ≡ ok tt
unfolding check_counts truthy nat_eq
check_counts-ok e1 e14 e15 e2 e3 h1 h14 h15 h2 h3 = rw (h1, h14, h15, h2, h3, check_counts) refl

check_paths-facts :
    (p1 p14 p15 p2 p3 : List String)
    → check_paths p1 p14 p15 p2 p3 ≡ ok tt
    → (same_set p1 p14 ≡ true)
      × (same_set p14 p15 ≡ true)
      × (strict_subset p15 p2 ≡ true)
      × (strict_subset p2 p3 ≡ true)
unfolding check_paths
check_paths-facts p1 p14 p15 p2 p3 h = (ground arith, ground arith, ground arith, ground arith)

check_paths-ok :
    (p1 p14 p15 p2 p3 : List String)
    → same_set p1 p14 ≡ true
    → same_set p14 p15 ≡ true
    → strict_subset p15 p2 ≡ true
    → strict_subset p2 p3 ≡ true
    → check_paths p1 p14 p15 p2 p3 ≡ ok tt
unfolding check_paths
check_paths-ok p1 p14 p15 p2 p3 h14 h15 h2 h3 = rw (h14, h15, h2, h3, check_paths) refl

module _ (m1 m14 m15 m2 m3 : Json) (o1 o14 o15 o2 o3 : Outputs) (h1 : HasOutputs m1 o1)
    (h14 : HasOutputs m14 o14) (h15 : HasOutputs m15 o15) (h2 : HasOutputs m2 o2)
    (h3 : HasOutputs m3 o3) where
  validate_family-paths : validate_family (family m1 m14 m15 m2 m3) ≡ (
      check_paths o1.paths o14.paths o15.paths o2.paths o3.paths
      >> check_endpoints (family m1 m14 m15 m2 m3))
  unfolding validate_family published_paths content_of lookup file_names string_eq same_set
  validate_family-paths = rw (h1.0, h14.0, h15.0, h2.0, h3.0, validate_family) refl

  check_endpoints-counts :
      check_endpoints (family m1 m14 m15 m2 m3)
      ≡ check_counts o1.endpoints o14.endpoints o15.endpoints o2.endpoints o3.endpoints
  unfolding check_endpoints check_no_endpoints content_of lookup string_eq len check_counts
  check_endpoints-counts = rw (h1.1, h14.1, h15.1, h2.1, h3.1, check_endpoints) refl

  validate_family_sound :
      validate_family (family m1 m14 m15 m2 m3) ≡ ok tt → IsFamily o1 o14 o15 o2 o3
  validate_family_sound h =
      let (_, paths, rest) =
        >>=-eq-ok (check_paths o1.paths o14.paths o15.paths o2.paths o3.paths) _
          (sym validate_family-paths ∙ h) in
      let (same14, same15, grows2, grows3) =
        check_paths-facts o1.paths o14.paths o15.paths o2.paths o3.paths paths in
      let (c1, c14, c15, c2, two) =
        check_counts-facts o1.endpoints o14.endpoints o15.endpoints o2.endpoints o3.endpoints
          (sym check_endpoints-counts ∙ rest) in
      record {
        same14 = same_set-Same o1.paths o14.paths same14;
        same15 = same_set-Same o14.paths o15.paths same15;
        grows2 = strict_subset-Grows o15.paths o2.paths grows2;
        grows3 = strict_subset-Grows o2.paths o3.paths grows3;
        closed1 = not-truthy o1.endpoints c1;
        closed14 = not-truthy o14.endpoints c14;
        closed15 = not-truthy o15.endpoints c15;
        closed2 = not-truthy o2.endpoints c2;
        two = two;
      }

  validate_family_complete :
      IsFamily o1 o14 o15 o2 o3 → validate_family (family m1 m14 m15 m2 m3) ≡ ok tt
  validate_family_complete f =
      validate_family-paths
      ∙ rw
          (check_paths-ok o1.paths o14.paths o15.paths o2.paths o3.paths
            (Same-same_set o1.paths o14.paths f.same14) (Same-same_set o14.paths o15.paths f.same15)
            (Grows-strict_subset o15.paths o2.paths f.grows2)
            (Grows-strict_subset o2.paths o3.paths f.grows3))
          (check_endpoints-counts
            ∙ check_counts-ok o1.endpoints o14.endpoints o15.endpoints o2.endpoints o3.endpoints
                f.closed1 f.closed14 f.closed15 f.closed2 f.two)

  -- Of five manifests, one for each release, from which the published paths and the advisory
  -- endpoints can be read, `validate_family` accepts exactly those where the patch releases of v1
  -- publish one set of paths, v2 all of these and more, v3 all of v2's and more, and only v3 has
  -- advisory endpoints, two of them.
  pub validate_family_iff :
      (validate_family (family m1 m14 m15 m2 m3) ≡ ok tt) ↔ IsFamily o1 o14 o15 o2 o3
  validate_family_iff = (validate_family_sound, validate_family_complete)
