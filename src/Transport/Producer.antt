-- ===== src/Transport/Producer.antt =====
-- advisory_transport.py: the path tables, `producer_ready`, and `CurrentTargets` without its thread.
use Prim.Native.String.{len}
use aos_vehicle_platform.Prelude.{
  ℕ, ◌-◌, ltb, leb, String, ◌<>◌, Bool, true, false, not, ◌&&◌, ◌||◌, Option, none, some, List, [],
  ◌∷◌, Result, ok, err, Exception, type_error, key_error, is_value_error, ◌==◌, string_eq, nat_eq,
  if◌then◌else◌, contains,
}
use aos_vehicle_platform.Prelude.Dict.{Dict, lookup}
use aos_vehicle_platform.Prelude.Text.{ends_with_z, drop_last}
use aos_vehicle_platform.Python.{Json, pos, Library, Datetime, get_or_null, keys, same_set}
use aos_vehicle_platform.Advisory.Endpoint.{endpoints, max_request_bytes}

-- `READINESS_PATHS`
abbrev pub readiness_paths : List String
readiness_paths =
    "Vehicle.OEM.BrakeHealth.Advisory.Readiness" ∷ "Vehicle.OEM.TireHealth.Advisory.Readiness" ∷ []

-- `AVAILABILITY_PATHS`
abbrev pub availability_paths : List String
availability_paths =
    "Vehicle.OEM.BrakeHealth.Advisory.Availability" ∷ "Vehicle.OEM.TireHealth.Advisory.Availability"
    ∷ []

-- `zip(READINESS_PATHS, AVAILABILITY_PATHS)`
abbrev pub observed_paths : List (String × String)
observed_paths =
    ("Vehicle.OEM.BrakeHealth.Advisory.Readiness", "Vehicle.OEM.BrakeHealth.Advisory.Availability")
    ∷ ("Vehicle.OEM.TireHealth.Advisory.Readiness", "Vehicle.OEM.TireHealth.Advisory.Availability")
    ∷ []

-- `path in ENDPOINTS`
unfoldable pub is_request_path : String → Bool
is_request_path path = elim (lookup path endpoints) [ none ↦ false | some endpoint ↦ true ]

unfoldable pub is_availability_path : String → Bool
is_availability_path path = contains availability_paths path

abbrev pub max_observation_age : ℕ
max_observation_age = 15_000_000

-- A difference of a naive and an aware datetime raises `TypeError`, which counts as not ready.
is_aware : Datetime → Bool
is_aware d = elim d.utcoffset [ none ↦ false | some offset ↦ true ]

-- `0 <= (now - observed).total_seconds() <= 15`
unfoldable pub is_recent : Datetime → Datetime → Bool
unfolding is_aware
is_recent now observed = elim (is_aware now) [
  | true ↦
      is_aware observed
      && leb observed.instant now.instant
      && leb (now.instant - observed.instant) max_observation_age
  | false ↦
      not (is_aware observed)
      && leb observed.instant now.instant
      && leb (now.instant - observed.instant) max_observation_age
]

-- `type(value) is int and value == 1`
is_one : Json → Bool
is_one (Json.int (pos n)) = n == 1
is_one _ = false

-- The exceptions that `producer_ready` catches; `OverflowError` is among `other_error`, and does not
-- come from these calls.
abbrev pub is_caught : Exception → Bool
is_caught type_error = true
is_caught (key_error k) = true
is_caught e = is_value_error e

module _ (py : Library) where
  observed_recently : Datetime → String → Bool
  observed_recently now at = elim (py.fromisoformat (drop_last at <> "+00:00")) [
    | none ↦ false
    | some observed ↦ is_recent now observed
  ]

  fields_ready : Datetime → Json → Json → Bool
  unfolding observed_recently
  fields_ready now (Json.bool is_ready) (Json.str at) =
      ends_with_z at && is_ready && observed_recently now at
  fields_ready now _ _ = false

  -- The value, parsed.
  unfoldable pub value_ready : String → Datetime → Json → Bool
  unfolding is_one fields_ready
  value_ready raw now (Json.obj fs) =
      same_set (keys fs) ("schemaVersion" ∷ "ready" ∷ "observedAt" ∷ [])
      && is_one (get_or_null "schemaVersion" fs)
      && py.dumps (Json.obj fs) == raw
      && fields_ready now (get_or_null "ready" fs) (get_or_null "observedAt" fs)
  value_ready raw now _ = false

  unfoldable pub producer_ready : Option String → Datetime → Result Bool
  producer_ready none now = ok false
  producer_ready (some raw) now = if ltb 256 (len raw) then ok false else elim (py.loads raw) [
    | ok value ↦ ok (value_ready raw now value)
    | err e ↦ if is_caught e then ok false else err e
  ]

-- `ready` and `values` of `CurrentTargets`.
pub record Targets : Type 0 where
  pub ready : Bool
  pub values : Dict String String

is_bounded_text : String → Bool
is_bounded_text raw = ltb 0 (len raw) && leb (len raw) max_request_bytes

-- The dict `bounded`; `none` stands for a value that is no text.
bounded : Dict String (Option String) → Dict String String
unfolding is_bounded_text
bounded [] = []
bounded ((path, none) ∷ rest) = bounded rest
bounded ((path, some raw) ∷ rest) =
    let others = bounded rest in
    if (is_request_path path || contains readiness_paths path) && is_bounded_text raw
    then (path, raw) ∷ others
    else others

-- `poll`, on what `read_advisory_targets` returned or raised.
unfoldable pub poll : Result (Dict String (Option String)) → Targets
unfolding bounded
poll (ok values) = record { ready = true; values = bounded values }
poll (err e) = record { ready = false; values = [] }
