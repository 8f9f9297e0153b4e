-- ===== src/Bridge/Snapshot/Complete.antt =====
-- `Snapshot.complete` of bridge.py: a complete snapshot has a value for every signal, all of one
-- timestamp.
use aos_vehicle_platform.Prelude.{ℕ, ◌≤◌, ◌+◌, String, ◌≡◌, ◌≢◌, refl, true, false}
use aos_vehicle_platform.Prelude.{none, some, List, [], ◌∷◌, ◌++◌, arith, string_eq, nat_eq}
use aos_vehicle_platform.Prelude.{contains, Result, ok, err, >>=-eq-ok, ◌⊎◌, inl, inr}
use aos_vehicle_platform.Prelude.{Option-cases, Bool-cases, subst, ap, ◌∙◌, ok-injective}
use aos_vehicle_platform.Prelude.Lists.{length, append_single-ne-nil}
use aos_vehicle_platform.Prelude.Dict.{
  Dict, lookup, lookup-nil, insert, lookup-insert, length-insert, length-insert_present,
}
use aos_vehicle_platform.Python.{Json, Fields, Library, get_or_null}
use aos_vehicle_platform.Bridge.Signal.{SignalSpec, SignalValue, paths_of}
use aos_vehicle_platform.Bridge.Snapshot.{
  Values, Snapshot, Progress, cleared, cleared_onto, signal_by_path, timestamps, single, finish,
  is_nil, is_bad_point, take_point, take_known, take_path, parse_points, parse_data_point, start,
  parse_snapshot, parse_snapshot-finish,
}
use aos_vehicle_platform.Bridge.Snapshot.Filled.{
  filled, filled-nil, filled-cleared_onto, filled-le, filled-insert, lookup_unfilled, lookup-filled,
  timestamp-eq-single,
}

-- What the loop over the points keeps.
record Keeps (signals : List SignalSpec) (p : Progress) : Type 0 where
  sized : length p.selected ≤ length signals
  counted : p.invalid ≡ [] → filled p.selected ≡ length p.seen
  unseen :
      (path : String)
      → contains p.seen path ≡ false
      → (v : SignalValue) → lookup path p.selected ≢ some (some v)
  present :
      (path : String) → contains (paths_of signals) path ≡ true → lookup path p.selected ≢ none

contains-signal_by_path :
    (signals : List SignalSpec) (d : Dict String SignalSpec) (path : String) (s : SignalSpec)
    → lookup path (signal_by_path signals d) ≡ some s
    → lookup path d ≡ none
    → contains (paths_of signals) path ≡ true
unfolding signal_by_path contains
contains-signal_by_path [] d path s h fresh = cc
contains-signal_by_path (t ∷ ts) d path s h fresh =
    ground (
      arith,
      contains-signal_by_path ts (insert t.path t d) path s h,
      lookup-insert path t.path t d,
    )

length-cleared_onto :
    (signals : List SignalSpec) (vs : Values)
    → length (cleared_onto signals vs) ≤ length signals + length vs
unfolding cleared_onto
length-cleared_onto [] vs = omega arith
length-cleared_onto (s ∷ ss) vs =
    omega (arith, length-cleared_onto ss (insert s.path none vs), length-insert s.path none vs)

lookup-cleared_onto :
    (signals : List SignalSpec) (vs : Values) (path : String)
    → (contains (paths_of signals) path ≡ true) ⊎ (lookup path vs ≢ none)
    → lookup path (cleared_onto signals vs) ≢ none
unfolding cleared_onto contains
lookup-cleared_onto [] vs path h = ground arith
lookup-cleared_onto (s ∷ ss) vs path h =
    lookup-cleared_onto ss (insert s.path none vs) path
      (ground (arith, lookup-insert path s.path none vs))

start-Keeps : (signals : List SignalSpec) → Keeps signals (start signals)
start-Keeps signals = record {
  sized = omega (arith, length-cleared_onto signals []);
  counted = λ _. filled-cleared_onto signals [] filled-nil;
  unseen = λ path _ v.
      lookup_unfilled path (cleared signals) v (filled-cleared_onto signals [] filled-nil);
  present = λ path h. lookup-cleared_onto signals [] path (inl h);
}

module _ (signals : List SignalSpec) where
  -- A first point for a signal leaves its entry empty until now.
  entry_is_none :
      (path : String) (p : Progress)
      → Keeps signals p
      → contains (paths_of signals) path ≡ true
      → contains p.seen path ≡ false
      → lookup path p.selected ≡ some none
  entry_is_none path p k known fresh = elim (Option-cases (lookup path p.selected)) [
    | inl e ↦ absurd (k.present path known e)
    | inr (none, e) ↦ e
    | inr (some v, e) ↦ absurd (k.unseen path fresh v e)
  ]

  ok-Keeps :
      (path : String) (v : SignalValue) (p : Progress)
      → Keeps signals p
      → lookup path p.selected ≡ some none
      → Keeps signals (record {
        selected = insert path (some v) p.selected;
        invalid = p.invalid;
        seen = path ∷ p.seen;
      })
  unfolding contains
  ok-Keeps path v p k e = record {
    sized = omega (arith, k.sized, length-insert_present path (some v) p.selected (λ n. cc));
    counted = λ i. omega (arith, k.counted i, filled-insert path v p.selected e);
    unseen = λ j h w.
        ground (arith, lookup-insert j path (some v) p.selected, k.unseen j (ground arith) w);
    present = λ j h. ground (arith, lookup-insert j path (some v) p.selected, k.present j h);
  }

  bad-Keeps :
      (path : String) (p : Progress)
      → Keeps signals p
      → lookup path p.selected ≡ some none
      → Keeps signals (record {
        selected = insert path none p.selected;
        invalid = p.invalid ++ (path ∷ []);
        seen = path ∷ p.seen;
      })
  unfolding contains
  bad-Keeps path p k e = record {
    sized = omega (arith, k.sized, length-insert_present path none p.selected (λ n. cc));
    counted = λ i. absurd (append_single-ne-nil p.invalid path i);
    unseen =
        λ j h w. ground (arith, lookup-insert j path none p.selected, k.unseen j (ground arith) w);
    present = λ j h. ground (arith, lookup-insert j path none p.selected, k.present j h);
  }

module _ (py : Library) (signals : List SignalSpec) where
  take_point-Keeps :
      (path : String) (r : Result SignalValue) (p : Progress) {q : Progress}
      → Keeps signals p
      → lookup path p.selected ≡ some none
      → take_point py path r p ≡ ok q
      → Keeps signals q
  unfolding take_point
  take_point-Keeps path (ok v) p k e h =
      subst (Keeps signals) (ok-injective h) (ok-Keeps signals path v p k e)
  take_point-Keeps path (err x) p k e h = elim (Bool-cases (is_bad_point py x)) [
    | inl bad ↦ subst (Keeps signals) (ok-injective (rw bad at h)) (bad-Keeps signals path p k e)
    | inr other ↦ absurd (ground arith)
  ]

  known_path-Keeps :
      (path : String) (signal : SignalSpec) (point : Fields) (p : Progress) {q : Progress}
      → Keeps signals p
      → lookup path (signal_by_path signals []) ≡ some signal
      → take_known py path signal point p ≡ ok q
      → Keeps signals q
  unfolding take_known
  known_path-Keeps path signal point p k e h = elim (Bool-cases (contains p.seen path)) [
    | inl old ↦ absurd (ground arith)
    | inr new ↦
        take_point-Keeps path (parse_data_point py signal point) p k
          (entry_is_none signals path p k
            (contains-signal_by_path signals [] path signal e (lookup-nil path)) new)
          (rw new at h)
  ]

  take_path-Keeps :
      (path : Json) (point : Fields) (p : Progress) {q : Progress}
      → Keeps signals p
      → take_path py signals path point p ≡ ok q
      → Keeps signals q
  unfolding take_path
  take_path-Keeps (Json.str path) point p k h =
      elim (Option-cases (lookup path (signal_by_path signals []))) [
        | inl e ↦ subst (Keeps signals) (ok-injective (rw (e, take_path) at h)) k
        | inr (signal, e) ↦ known_path-Keeps path signal point p k e (rw (e, take_path) at h)
      ]
  take_path-Keeps (Json.arr vs) point p k h = absurd (ground arith)
  take_path-Keeps (Json.obj fs) point p k h = absurd (ground arith)
  take_path-Keeps _ point p k h = subst (Keeps signals) (ok-injective h) k

  parse_points-Keeps :
      (points : List Json) (p : Progress) {q : Progress}
      → Keeps signals p
      → parse_points py signals points p ≡ ok q
      → Keeps signals q
  unfolding parse_points
  parse_points-Keeps [] p k h = subst (Keeps signals) (ok-injective h) k
  parse_points-Keeps (Json.obj point ∷ points) p k h =
      let (p', e, h') =
        >>=-eq-ok (take_path py signals (get_or_null "path" point) point p)
          (parse_points py signals points) h in
      parse_points-Keeps points p' (take_path-Keeps (get_or_null "path" point) point p k e) h'
  parse_points-Keeps (_ ∷ points) p k h = absurd (ground arith)

-- Every signal has a value, and all of them the timestamp `t`.
abbrev pub CoversAt : List SignalSpec → Values → ℕ → Type 0
CoversAt signals vs t =
    (path : String)
    → contains (paths_of signals) path ≡ true
    → (v : SignalValue) × (lookup path vs ≡ some (some v)) × (v.timestamp ≡ t)

is_nil-eq : (xs : List String) → is_nil xs ≡ true → xs ≡ []
unfolding is_nil
is_nil-eq [] h = refl
is_nil-eq (x ∷ xs) h = cc

-- The three tests of `complete`.
complete_parts :
    (signals : List SignalSpec) (p : Progress)
    → (finish signals p).complete ≡ true
    → (is_nil p.invalid ≡ true)
      × (length p.seen ≡ length signals)
      × (length (timestamps p.selected) ≡ 1)
      × ((finish signals p).source_timestamp ≡ single (timestamps p.selected))
unfolding finish
complete_parts signals p h = ground arith

single-some : (ts : List ℕ) → length ts ≡ 1 → (t : ℕ) × (single ts ≡ some t)
single-some [] h = absurd (omega arith)
single-some (t ∷ ts) h = (t, refl)

full-CoversAt :
    (signals : List SignalSpec) (p : Progress) (t : ℕ)
    → Keeps signals p
    → filled p.selected ≡ length p.selected
    → length (timestamps p.selected) ≡ 1
    → single (timestamps p.selected) ≡ some t
    → CoversAt signals p.selected t
full-CoversAt signals p t k full one e path known = elim (Option-cases (lookup path p.selected)) [
  | inl missing ↦ absurd (k.present path known missing)
  | inr (o, found) ↦
      let (v, is_v) = lookup-filled path p.selected o full found in
      let found_v : lookup path p.selected ≡ some (some v) = found ∙ ap some is_v in
      (v, found_v, cc (timestamp-eq-single path v p.selected one found_v))
]

finish-CoversAt :
    (signals : List SignalSpec) (p : Progress)
    → Keeps signals p
    → (finish signals p).complete ≡ true
    → (t : ℕ) × ((finish signals p).source_timestamp ≡ some t) × CoversAt signals p.selected t
finish-CoversAt signals p k h =
    let parts = complete_parts signals p h in
    let full : filled p.selected ≡ length p.selected =
      omega (arith, k.counted (is_nil-eq p.invalid parts.0), k.sized, filled-le p.selected) in
    let (t, e) = single-some (timestamps p.selected) parts.2 in
    (t, parts.3 ∙ e, full-CoversAt signals p t k full parts.2 e)

-- A complete snapshot has a source timestamp, and holds for the path of each signal a value with
-- that timestamp.
pub parse_snapshot-complete :
    (py : Library) (raw subscription_id : String) (signals : List SignalSpec) (s : Snapshot)
    → parse_snapshot py raw subscription_id signals ≡ ok s
    → s.complete ≡ true
    → (t : ℕ) × (s.source_timestamp ≡ some t) × CoversAt signals s.values t
unfolding finish
parse_snapshot-complete py raw id signals s h full =
    let (points, p, e, f) = parse_snapshot-finish py raw id signals h in
    let k = parse_points-Keeps py signals points (start signals) (start-Keeps signals) e in
    subst
      (λ (s' : Snapshot). (t : ℕ) × (s'.source_timestamp ≡ some t) × CoversAt signals s'.values t) f
      (finish-CoversAt signals p k (rw (← f) at full))
