-- ===== src/Bridge/Snapshot/Range.antt =====
-- Where the values of a snapshot come from (bridge.py): each is what the converter of its own
-- signal makes of a text.
use aos_vehicle_platform.Prelude.{
  String, ◌≡◌, refl, Option, none, some, List, [], ◌∷◌, arith, string_eq, contains, Result, ok, err,
  >>=-eq-ok, inl, inr, Option-cases, Bool-cases, subst, sym, ap, ◌∙◌, ◌⊎◌, ok-injective,
}
use aos_vehicle_platform.Prelude.Dict.{
  Dict, lookup, lookup-nil, insert, lookup-insert_eq, lookup-insert_ne,
}
use aos_vehicle_platform.Python.{Json, Fields, Library, get_or_null}
use aos_vehicle_platform.Bridge.Signal.{
  SignalSpec, SignalValue, Value, finite_float, nonnegative_float, uint8_percent,
}
use aos_vehicle_platform.Bridge.Signal.Convert.{
  HasStandard, convert-IsInRange, IsFinite, IsNonnegative, IsPercent,
}
use aos_vehicle_platform.Prelude.Lists.{All, Among}
use mathlib.Core.Option.{some-injective}
use aos_vehicle_platform.Bridge.Snapshot.{
  Values, Snapshot, Progress, cleared, signal_by_path, finish, start, is_bad_point, take_point,
  take_known, take_path, parse_points, parse_data_point, data_point_texts, datapoint_texts,
  both_texts, parse_timestamp, parse_snapshot, parse_snapshot-event_points, event_points,
}
use aos_vehicle_platform.Bridge.Snapshot.Filled.{filled-nil, filled-cleared_onto, lookup_unfilled}

-- The point of this path that the value was made of: its text by the converter of the signal at the
-- path, its timestamp by the parser of timestamps.
pub record IsConverted (py : Library) (From : Fields → Type 0) (signals : List SignalSpec)
    (path : String) (v : SignalValue) : Type 0 where
  pub signal : SignalSpec
  pub is_signal : lookup path (signal_by_path signals []) ≡ some signal
  pub point : Fields
  pub came : From point
  pub at_path : get_or_null "path" point ≡ Json.str path
  pub datapoint : Fields
  pub is_datapoint : get_or_null "dp" point ≡ Json.obj datapoint
  pub text : String
  pub is_text : get_or_null "value" datapoint ≡ Json.str text
  pub converted : signal.convert text ≡ ok v.value
  pub stamp : String
  pub is_stamp : get_or_null "ts" datapoint ≡ Json.str stamp
  pub stamped : parse_timestamp py stamp ≡ ok v.timestamp

abbrev AllConverted : Library → (Fields → Type 0) → List SignalSpec → Values → Type 0
AllConverted py From signals vs =
    (path : String) (v : SignalValue)
    → lookup path vs ≡ some (some v)
    → IsConverted py From signals path v

both_texts-eq :
    (value ts : Json) (text stamp : String)
    → both_texts value ts ≡ ok (text, stamp)
    → (value ≡ Json.str text) × (ts ≡ Json.str stamp)
unfolding both_texts
both_texts-eq value ts text stamp h = ground arith

datapoint_texts-eq :
    (dp : Json) (text stamp : String)
    → datapoint_texts dp ≡ ok (text, stamp)
    → (datapoint : Fields) × (dp ≡ Json.obj datapoint)
      × (get_or_null "value" datapoint ≡ Json.str text)
      × (get_or_null "ts" datapoint ≡ Json.str stamp)
unfolding datapoint_texts
datapoint_texts-eq (Json.obj fs) text stamp h =
    let (a, b) = both_texts-eq (get_or_null "value" fs) (get_or_null "ts" fs) text stamp h in
    (fs, refl, a, b)
datapoint_texts-eq _ text stamp h = absurd (cc)

parse_data_point-parts :
    (py : Library) (signal : SignalSpec) (point : Fields) (v : SignalValue)
    → parse_data_point py signal point ≡ ok v
    → (text : String) × (stamp : String) × (data_point_texts point ≡ ok (text, stamp))
      × (signal.convert text ≡ ok v.value)
      × (parse_timestamp py stamp ≡ ok v.timestamp)
unfolding parse_data_point
parse_data_point-parts py signal point v h =
    let ((text, stamp), texts, h₁) = >>=-eq-ok (data_point_texts point) _ h in
    let (t, is_t, h₂) = >>=-eq-ok (parse_timestamp py stamp) _ h₁ in
    let (w, is_w, h₃) = >>=-eq-ok (signal.convert text) _ h₂ in
    (
      text,
      stamp,
      texts,
      is_w ∙ ap ok (ap (λ (x : SignalValue). x.value) (ok-injective h₃)),
      is_t ∙ ap ok (ap (λ (x : SignalValue). x.timestamp) (ok-injective h₃)),
    )

parse_data_point-IsConverted :
    (py : Library) (From : Fields → Type 0) (signals : List SignalSpec) (path : String)
    (signal : SignalSpec) (point : Fields) (v : SignalValue)
    → lookup path (signal_by_path signals []) ≡ some signal
    → From point
    → get_or_null "path" point ≡ Json.str path
    → parse_data_point py signal point ≡ ok v
    → IsConverted py From signals path v
unfolding data_point_texts
parse_data_point-IsConverted py From signals path signal point v known came at h =
    let (text, stamp, texts, converted, stamped) = parse_data_point-parts py signal point v h in
    let (datapoint, is_datapoint, is_text, is_stamp) =
      datapoint_texts-eq (get_or_null "dp" point) text stamp texts in
    record {
      signal = signal;
      is_signal = known;
      point = point;
      came = came;
      at_path = at;
      datapoint = datapoint;
      is_datapoint = is_datapoint;
      text = text;
      is_text = is_text;
      converted = converted;
      stamp = stamp;
      is_stamp = is_stamp;
      stamped = stamped;
    }

module _ (py : Library) (From : Fields → Type 0) (signals : List SignalSpec) where
  insert-AllConverted :
      (path : String) (o : Option SignalValue) (vs : Values)
      → AllConverted py From signals vs
      → ((v : SignalValue) → o ≡ some v → IsConverted py From signals path v)
      → AllConverted py From signals (insert path o vs)
  insert-AllConverted path o vs all one j v h = elim (string_eq.dec j path) [
    | yes same ↦
        subst (λ k. IsConverted py From signals k v) (sym same)
          (one v (cc (lookup-insert_eq j path o vs same)))
    | no other ↦ all j v (sym (lookup-insert_ne j path o vs other) ∙ h)
  ]

  take_point-AllConverted :
      (path : String) (signal : SignalSpec) (point : Fields) (p : Progress) {q : Progress}
      → AllConverted py From signals p.selected
      → lookup path (signal_by_path signals []) ≡ some signal
      → From point
      → get_or_null "path" point ≡ Json.str path
      → (r : Result SignalValue) → parse_data_point py signal point ≡ r
      → take_point py path r p ≡ ok q
      → AllConverted py From signals q.selected
  unfolding take_point
  take_point-AllConverted path signal point p all is_signal came at (ok v) e h =
      let made =
        parse_data_point-IsConverted py From signals path signal point v is_signal came at e in
      subst (λ (q : Progress). AllConverted py From signals q.selected) (ok-injective h)
        (insert-AllConverted path (some v) p.selected all
          (λ w s. subst (IsConverted py From signals path) (some-injective v w s) made))
  take_point-AllConverted path signal point p all is_signal came at (err x) e h =
      elim (Bool-cases (is_bad_point py x)) [
        | inl bad ↦
            subst (λ (q : Progress). AllConverted py From signals q.selected)
              (ok-injective (rw bad at h))
              (insert-AllConverted path none p.selected all (λ w s. absurd (cc)))
        | inr other ↦ absurd (ground arith)
      ]

  take_path-AllConverted :
      (path : Json) (point : Fields) (p : Progress) {q : Progress}
      → AllConverted py From signals p.selected
      → From point
      → get_or_null "path" point ≡ path
      → take_path py signals path point p ≡ ok q
      → AllConverted py From signals q.selected
  unfolding take_path take_known
  take_path-AllConverted (Json.str path) point p all came at h =
      elim (Option-cases (lookup path (signal_by_path signals []))) [
        | inl e ↦
            subst (λ (q : Progress). AllConverted py From signals q.selected)
              (ok-injective (rw (e, take_path) at h)) all
        | inr (signal, e) ↦ elim (Bool-cases (contains p.seen path)) [
          | inl old ↦ absurd (ground arith)
          | inr new ↦
              take_point-AllConverted path signal point p all e came at
                (parse_data_point py signal point) refl (rw (e, new, take_path) at h)
        ]
      ]
  take_path-AllConverted (Json.arr vs) point p all came at h = absurd (ground arith)
  take_path-AllConverted (Json.obj fs) point p all came at h = absurd (ground arith)
  take_path-AllConverted _ point p all came at h =
      subst (λ (q : Progress). AllConverted py From signals q.selected) (ok-injective h) all

  parse_points-AllConverted :
      (points : List Json) (p : Progress) {q : Progress}
      → AllConverted py From signals p.selected
      → ((point : Fields) → Among (Json.obj point) points → From point)
      → parse_points py signals points p ≡ ok q
      → AllConverted py From signals q.selected
  unfolding parse_points
  parse_points-AllConverted [] p all came h =
      subst (λ (q : Progress). AllConverted py From signals q.selected) (ok-injective h) all
  parse_points-AllConverted (Json.obj point ∷ points) p all came h =
      let (p', e, h') =
        >>=-eq-ok (take_path py signals (get_or_null "path" point) point p)
          (parse_points py signals points) h in
      parse_points-AllConverted points p'
        (take_path-AllConverted (get_or_null "path" point) point p all (came point (inl refl)) refl
          e)
        (λ x later. came x (inr later)) h'
  parse_points-AllConverted (_ ∷ points) p all came h = absurd (ground arith)

start-AllConverted :
    (py : Library) (From : Fields → Type 0) (signals : List SignalSpec)
    → AllConverted py From signals (cleared signals)
start-AllConverted py From signals path v h =
    absurd (lookup_unfilled path (cleared signals) v (filled-cleared_onto signals [] filled-nil) h)

-- The points of the message's data.
abbrev pub IsPointOf : Library → String → String → Fields → Type 0
IsPointOf py raw subscription_id point =
    (points : List Json) × (event_points py raw subscription_id ≡ ok points)
    × Among (Json.obj point) points

-- A value that a snapshot holds for a path is made of a point of the message that names this path:
-- the value is what the converter of the signal at that path makes of the text under "value" in the
-- point's data, and the timestamp is the instant of the text under "ts".
pub parse_snapshot-convert :
    (py : Library) (raw subscription_id : String) (signals : List SignalSpec) (s : Snapshot)
    → parse_snapshot py raw subscription_id signals ≡ ok s
    → (path : String) (v : SignalValue) → lookup path s.values ≡ some (some v)
    → IsConverted py (IsPointOf py raw subscription_id) signals path v
unfolding finish
parse_snapshot-convert py raw id signals s h path v found =
    let (points, p, read, e, f) = parse_snapshot-event_points py raw id signals h in
    parse_points-AllConverted py (IsPointOf py raw id) signals points (start signals)
      (start-AllConverted py (IsPointOf py raw id) signals) (λ point among. (points, read, among)) e
      path v (rw (← f) at found)

lookup-signal_by_path :
    (py : Library) (path : String) (ss : List SignalSpec) (d : Dict String SignalSpec)
    (s : SignalSpec)
    → All (HasStandard py) ss
    → ((s' : SignalSpec) → lookup path d ≡ some s' → HasStandard py s')
    → lookup path (signal_by_path ss d) ≡ some s
    → HasStandard py s
unfolding signal_by_path
lookup-signal_by_path py path [] d s all old h = old s h
lookup-signal_by_path py path (t ∷ ss) d s all old h =
    lookup-signal_by_path py path ss (insert t.path t d) s all.1
      (λ s' e. elim (string_eq.dec path t.path) [
        | yes same ↦
            subst (HasStandard py)
              (some-injective t s' (sym (lookup-insert_eq path t.path t d same) ∙ e)) all.0
        | no other ↦ old s' (sym (lookup-insert_ne path t.path t d other) ∙ e)
      ])
      h

-- What the value of a signal with one of the three converters can be: a finite float, a finite one
-- that is not below zero, or a whole number up to 100.
abbrev pub IsInRange : Library → SignalSpec → Value → Type 0
IsInRange py signal v =
    ((signal.convert ≡ finite_float py) × IsFinite v)
    ⊎ ((signal.convert ≡ nonnegative_float py) × IsNonnegative v)
    ⊎ ((signal.convert ≡ uint8_percent) × IsPercent v)

pub parse_snapshot-InRange :
    (py : Library) (raw subscription_id : String) (signals : List SignalSpec) (s : Snapshot)
    → All (HasStandard py) signals
    → parse_snapshot py raw subscription_id signals ≡ ok s
    → (path : String) (v : SignalValue) → lookup path s.values ≡ some (some v)
    → (signal : SignalSpec) × (lookup path (signal_by_path signals []) ≡ some signal)
      × IsInRange py signal v.value
parse_snapshot-InRange py raw id signals s standard h path v found =
    let made = parse_snapshot-convert py raw id signals s h path v found in
    (
      made.signal,
      made.is_signal,
      convert-IsInRange py made.signal.convert made.text v.value
          (lookup-signal_by_path py path signals [] made.signal standard
            (λ s' e. absurd (cc (lookup-nil {V = SignalSpec} path))) made.is_signal)
          made.converted,
    )
