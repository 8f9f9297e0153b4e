-- ===== src/Bridge/Snapshot/Foreign.antt =====
-- `parse_snapshot` (bridge.py) passes over the points of paths that are no signal's.
use aos_vehicle_platform.Prelude.{
  String, ◌≡◌, refl, false, none, List, [], ◌∷◌, arith, ◌==◌, string_eq, ok,
}
use aos_vehicle_platform.Prelude.Lists.{All}
use aos_vehicle_platform.Prelude.Dict.{Dict, lookup, insert, lookup-insert, lookup-nil}
use aos_vehicle_platform.Python.{Json, Fields, Library, get_or_null}
use aos_vehicle_platform.Bridge.Signal.{SignalSpec}
use aos_vehicle_platform.Bridge.Snapshot.{Progress, signal_by_path, take_path, parse_points}

lookup-signal_by_path-none :
    (path : String) (signals : List SignalSpec) (d : Dict String SignalSpec)
    → All (λ (s : SignalSpec). path == s.path ≡ false) signals
    → lookup path d ≡ none
    → lookup path (signal_by_path signals d) ≡ none
unfolding signal_by_path
lookup-signal_by_path-none path [] d h e = e
lookup-signal_by_path-none path (s ∷ ss) d (n, h) e =
    lookup-signal_by_path-none path ss (insert s.path s d) h
      (ground (arith, lookup-insert path s.path s d))

-- The point is an object with a path of text that is no signal's.
abbrev pub IsForeign : List SignalSpec → Json → Type 0
IsForeign signals point =
    (fs : Fields) × (path : String) × (point ≡ Json.obj fs)
    × (get_or_null "path" fs ≡ Json.str path)
    × All (λ (s : SignalSpec). path == s.path ≡ false) signals

pub parse_points-foreign :
    (py : Library) (signals : List SignalSpec) (points : List Json) (p : Progress)
    → All (IsForeign signals) points
    → parse_points py signals points p ≡ ok p
unfolding parse_points take_path
parse_points-foreign py signals [] p a = refl
parse_points-foreign py signals (point ∷ points) p ((fs, path, e, named, other), a) =
    let missed : lookup path (signal_by_path signals []) ≡ none =
      lookup-signal_by_path-none path signals [] other (lookup-nil path) in
    rw (e, parse_points)
      (rw (named, missed, take_path) (parse_points-foreign py signals points p a))
