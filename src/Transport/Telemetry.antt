-- ===== src/Transport/Telemetry.antt =====
-- `AdvisoryTransport.consume` (advisory_transport.py) beside the bridge (bridge.py): what the
-- transport takes over has no telemetry.
use aos_vehicle_platform.Prelude.{
  String, ◌≡◌, ◌≢◌, refl, true, false, Option, none, some, List, [], ◌∷◌, arith, ◌==◌, string_eq,
  Result, ok, err, ok-injective, Bool-cases, inl, inr,
}
use aos_vehicle_platform.Prelude.Lists.{All}
use aos_vehicle_platform.Python.{Json, Fields, Library, get, get_or_null, is_str}
use aos_vehicle_platform.Advisory.Policy.{StatusPublisher}
use aos_vehicle_platform.Bridge.Signal.{SignalSpec}
use aos_vehicle_platform.Bridge.Snapshot.{Progress, parse_points}
use aos_vehicle_platform.Bridge.Snapshot.Foreign.{IsForeign, parse_points-foreign}
use aos_vehicle_platform.Transport.Session.{Environment}
use aos_vehicle_platform.Transport.{State}
use aos_vehicle_platform.Transport.Consume.{
  named_status, status_point, is_status_point, is_status_path, all_status, status_only, points_of,
  consume_message, consume_value, consume, after_points, take_points, consume_points,
}

-- No signal has the path of a status.
abbrev pub IsApart : List SignalSpec → Type 0
IsApart = All (λ (s : SignalSpec). is_status_path s.path ≡ false)

IsApart-other :
    (path : String) (signals : List SignalSpec)
    → is_status_path path ≡ true
    → IsApart signals
    → All (λ (s : SignalSpec). path == s.path ≡ false) signals
IsApart-other path [] h a = tt
IsApart-other path (s ∷ ss) h (n, a) = (ground arith, IsApart-other path ss h a)

named_status-some :
    (path datapoint : Json)
    → named_status path datapoint ≢ none
    → (p : String) × (path ≡ Json.str p) × (is_status_path p ≡ true)
unfolding named_status
named_status-some (Json.str p) datapoint h = elim (Bool-cases (is_status_path p)) [
  | inl status ↦ (p, refl, status)
  | inr other ↦ absurd (h (rw (other, named_status) refl))
]
named_status-some (Json.obj fs) datapoint h = absurd (h refl)
named_status-some Json.null datapoint h = absurd (h refl)
named_status-some (Json.bool b) datapoint h = absurd (h refl)
named_status-some (Json.int n) datapoint h = absurd (h refl)
named_status-some (Json.float d) datapoint h = absurd (h refl)
named_status-some (Json.arr vs) datapoint h = absurd (h refl)

status_point-some : (point : Json) → is_status_point point ≡ true → status_point point ≢ none
unfolding is_status_point
status_point-some point h e = ground arith

is_status_point-IsForeign :
    (signals : List SignalSpec) (point : Json)
    → IsApart signals
    → is_status_point point ≡ true
    → IsForeign signals point
unfolding is_status_point status_point
is_status_point-IsForeign signals (Json.obj fs) a h =
    let (path, named, status) =
      named_status-some (get_or_null "path" fs) (get_or_null "dp" fs)
        (status_point-some (Json.obj fs) h) in
    (fs, path, refl, named, IsApart-other path signals status a)
is_status_point-IsForeign signals Json.null a h = absurd (ground arith)
is_status_point-IsForeign signals (Json.bool b) a h = absurd (ground arith)
is_status_point-IsForeign signals (Json.int n) a h = absurd (ground arith)
is_status_point-IsForeign signals (Json.float d) a h = absurd (ground arith)
is_status_point-IsForeign signals (Json.str s) a h = absurd (ground arith)
is_status_point-IsForeign signals (Json.arr vs) a h = absurd (ground arith)

all_status-IsForeign :
    (signals : List SignalSpec) (points : List Json)
    → IsApart signals
    → all_status points ≡ true
    → All (IsForeign signals) points
unfolding all_status
all_status-IsForeign signals [] a h = tt
all_status-IsForeign signals (point ∷ points) a h = (
  is_status_point-IsForeign signals point a (ground arith),
  all_status-IsForeign signals points a (ground arith),
)

status_only-all : (points : List Json) → status_only points ≡ true → all_status points ≡ true
unfolding status_only
status_only-all [] h = absurd (ground arith)
status_only-all (point ∷ points) h = h

module _ (E : Environment) (S : StatusPublisher) (py : Library) where
  after_points-true :
      (points : List Json) (r : Result (Unit {0}) × State E S py)
      → (after_points E S py points r).0 ≡ ok true
      → status_only points ≡ true
  unfolding after_points
  after_points-true points (ok u, t) h = ok-injective h
  after_points-true points (err e, t) h = cc

  consume_points-true :
      (points : Option (List Json)) (t : State E S py)
      → (consume_points E S py points t).0 ≡ ok true
      → (ps : List Json) × (points ≡ some ps) × (status_only ps ≡ true)
  unfolding consume_points
  consume_points-true none t h = absurd (ground arith)
  consume_points-true (some ps) t h =
      (ps, refl, after_points-true ps (take_points E S py ps [] t) h)

  consume_message-true :
      (id : String) (message : Fields) (t : State E S py)
      → is_str (get_or_null "action" message) "set" ≡ false
      → (consume_message E S py id message t).0 ≡ ok true
      → (ps : List Json) × (points_of (get "data" message) ≡ some ps) × (status_only ps ≡ true)
  unfolding consume_message
  consume_message-true id message t plain h =
      consume_points-true (points_of (get "data" message)) t (ground arith)

  -- The transport takes no telemetry away from the bridge. Of a message that is no Set response and
  -- that `consume` takes over, for any signals whose paths are not status paths: every point is
  -- passed over by the bridge's parser, which is left with what it had.
  pub consume-parse_points :
      (raw id : String) (message : Fields) (t : State E S py) (signals : List SignalSpec)
      → IsApart signals
      → py.loads raw ≡ ok (Json.obj message)
      → is_str (get_or_null "action" message) "set" ≡ false
      → (consume E S py raw id t).0 ≡ ok true
      → (points : List Json) × (points_of (get "data" message) ≡ some points)
        × ((p : Progress) → parse_points py signals points p ≡ ok p)
  unfolding consume consume_value
  consume-parse_points raw id message t signals a loaded plain h =
      let (ps, found, only) =
        consume_message-true id message t plain (rw (loaded, consume_value) at h) in
      (
        ps,
        found,
        λ p.
            parse_points-foreign py signals ps p
              (all_status-IsForeign signals ps a (status_only-all ps only)),
      )
