-- ===== src/Bridge/Snapshot/Filled.antt =====
-- Counting the values that are there, for `complete` of bridge.py.
use aos_vehicle_platform.Prelude.{
  ℕ, suc, ◌≤◌, String, ◌≡◌, ◌≢◌, refl, true, Option, none, some, List,
}
use aos_vehicle_platform.Prelude.{[], ◌∷◌, arith, string_eq, nat_eq, contains}
use aos_vehicle_platform.Prelude.Lists.{length}
use aos_vehicle_platform.Prelude.Dict.{lookup, insert}
use aos_vehicle_platform.Bridge.Signal.{SignalSpec, SignalValue}
use aos_vehicle_platform.Bridge.Snapshot.{Values, timestamps, single, cleared_onto}

pub filled : Values → ℕ
filled [] = 0
filled ((path, none) ∷ vs) = filled vs
filled ((path, some v) ∷ vs) = suc (filled vs)

pub filled-le : (vs : Values) → filled vs ≤ length vs
unfolding filled
filled-le [] = omega arith
filled-le ((path, none) ∷ vs) = omega (arith, filled-le vs)
filled-le ((path, some v) ∷ vs) = omega (arith, filled-le vs)

pub filled-insert :
    (path : String) (v : SignalValue) (vs : Values)
    → lookup path vs ≡ some none
    → filled (insert path (some v) vs) ≡ suc (filled vs)
unfolding filled lookup insert
filled-insert path v [] h = cc
filled-insert path v ((p, none) ∷ vs) h = ground (arith, filled-insert path v vs)
filled-insert path v ((p, some w) ∷ vs) h = ground (arith, filled-insert path v vs)

pub filled-nil : filled [] ≡ 0
unfolding filled
filled-nil = refl

-- With every entry filled, each lookup finds a value.
pub lookup-filled :
    (path : String) (vs : Values) (o : Option SignalValue)
    → filled vs ≡ length vs
    → lookup path vs ≡ some o
    → (v : SignalValue) × (o ≡ some v)
unfolding filled lookup
lookup-filled path [] o f h = cc
lookup-filled path ((p, none) ∷ vs) o f h = absurd (omega (arith, filled-le vs))
lookup-filled path ((p, some w) ∷ vs) none f h =
    absurd (ground (arith, lookup-filled path vs none (omega arith)))
lookup-filled path ((p, some w) ∷ vs) (some v) f h = (v, refl)

contains-timestamps :
    (path : String) (v : SignalValue) (vs : Values)
    → lookup path vs ≡ some (some v)
    → contains (timestamps vs) v.timestamp ≡ true
unfolding lookup timestamps contains
contains-timestamps path v [] h = cc
contains-timestamps path v ((p, none) ∷ vs) h = ground (arith, contains-timestamps path v vs)
contains-timestamps path v ((p, some w) ∷ vs) h = ground (arith, contains-timestamps path v vs)

single_of_contains :
    (ts : List ℕ) (t : ℕ) → length ts ≡ 1 → contains ts t ≡ true → single ts ≡ some t
unfolding contains
single_of_contains [] t l h = cc
single_of_contains (u ∷ []) t l h = ground arith
single_of_contains (u ∷ v ∷ ts) t l h = absurd (omega arith)

-- With one timestamp, every value has it.
pub timestamp-eq-single :
    (path : String) (v : SignalValue) (vs : Values)
    → length (timestamps vs) ≡ 1
    → lookup path vs ≡ some (some v)
    → single (timestamps vs) ≡ some v.timestamp
timestamp-eq-single path v vs l h =
    single_of_contains (timestamps vs) v.timestamp l (contains-timestamps path v vs h)

pub filled-insert-none :
    (path : String) (vs : Values) → filled vs ≡ 0 → filled (insert path none vs) ≡ 0
unfolding filled insert
filled-insert-none path [] h = refl
filled-insert-none path ((p, none) ∷ vs) h = ground (arith, filled-insert-none path vs)
filled-insert-none path ((p, some v) ∷ vs) h = absurd (omega arith)

pub lookup_unfilled :
    (path : String) (vs : Values) (v : SignalValue) → filled vs ≡ 0 → lookup path vs ≢ some (some v)
unfolding filled lookup
lookup_unfilled path [] v h e = cc
lookup_unfilled path ((p, none) ∷ vs) v h e = ground (arith, lookup_unfilled path vs v)
lookup_unfilled path ((p, some w) ∷ vs) v h e = absurd (omega arith)

pub filled-cleared_onto :
    (signals : List SignalSpec) (vs : Values) → filled vs ≡ 0 → filled (cleared_onto signals vs) ≡ 0
unfolding cleared_onto
filled-cleared_onto [] vs h = h
filled-cleared_onto (s ∷ ss) vs h =
    filled-cleared_onto ss (insert s.path none vs) (filled-insert-none s.path vs h)
