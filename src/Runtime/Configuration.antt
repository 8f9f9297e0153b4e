-- ===== src/Runtime/Configuration.antt =====
-- runtime.py: `load_payload_configuration` with its helpers, and the delay before a reconnect.
use aos_vehicle_platform.Prelude.{
  ℕ, ◌*◌, ltb, leb, String, ◌<>◌, Bool, true, false, not, ◌&&◌, ◌||◌, Option, none, some, List, [],
  ◌∷◌, ◌++◌, Result, ok, err, value_error, string_eq, if◌then◌else◌, raise_if, ◌>>=◌, ◌>>◌,
}
use aos_vehicle_platform.Prelude.Text.{decimal}
use aos_vehicle_platform.Python.{
  Json, pos, Fields, Library, get_or_null, keys, is_subset, is_str, is_int,
}
use aos_vehicle_platform.Bridge.Signal.{SignalSpec, base_signals}
use aos_vehicle_platform.Manifest.Releases.{Profile, AdvisoryContract, first, current}
use aos_vehicle_platform.Manifest.{Files, load_manifest}

pub record PayloadConfiguration : Type 0 where
  pub subscription_period_ms : ℕ
  pub freshness_timeout_ms : ℕ
  pub reconnect_initial_ms : ℕ
  pub reconnect_max_ms : ℕ
  pub semantic_version : Option String
  pub signals : List SignalSpec
  pub advisory_enabled : Bool

-- `_require_keys`
unfoldable pub require_keys : Fields → List String → List String → String → Result (Unit {0})
require_keys container required optional label =
    raise_if
      (not (is_subset required (keys container))
        || not (is_subset (keys container) (required ++ optional)))
      (value_error (label <> " has missing or unexpected fields"))

-- `_integer`
bounded_int : Json → ℕ → ℕ → Option ℕ
bounded_int (Json.int (pos n)) minimum maximum =
    if leb minimum n && leb n maximum then some n else none
bounded_int _ minimum maximum = none

unfoldable pub integer : Fields → String → ℕ → ℕ → Result ℕ
unfolding bounded_int
integer container key minimum maximum =
    elim (bounded_int (get_or_null key container) minimum maximum) [
      | some n ↦ ok n
      | none ↦ err (
          value_error (key <> " must be between " <> decimal minimum <> " and " <> decimal maximum))
    ]

-- What a payload is made of, beside its times.
pub record Payload : Type 0 where
  pub semantic_version : Option String
  pub signals : List SignalSpec
  pub advisory_enabled : Bool

-- The object `timing`, which both kinds of payload read alike.
unfoldable pub timing_fields : Json → Result Fields
timing_fields (Json.obj timing) = ok timing
timing_fields _ = err (value_error "component timing configuration must be an object")

unfoldable pub read_timing : Json → Payload → Result PayloadConfiguration
unfolding timing_fields
read_timing value payload = do
  timing ← timing_fields value
  require_keys timing
      ("subscriptionPeriodMs" ∷ "freshnessTimeoutMs" ∷ "reconnectInitialMs" ∷ "reconnectMaxMs" ∷ [])
      [] "component timing configuration"
  period ← integer timing "subscriptionPeriodMs" 50 60_000
  freshness ← integer timing "freshnessTimeoutMs" 100 60_000
  initial ← integer timing "reconnectInitialMs" 100 60_000
  maximum ← integer timing "reconnectMaxMs" 100 300_000
  raise_if (ltb maximum initial)
      (value_error "initial reconnect delay must not exceed maximum delay")
  ok (record {
    subscription_period_ms = period;
    freshness_timeout_ms = freshness;
    reconnect_initial_ms = initial;
    reconnect_max_ms = maximum;
    semantic_version = payload.semantic_version;
    signals = payload.signals;
    advisory_enabled = payload.advisory_enabled;
  })

-- `bool(ids) and getattr(profile, "ADVISORY_CONTRACT", None) == CURRENT_ADVISORY_CONTRACT`
is_current : Option AdvisoryContract → Bool
is_current (some current) = true
is_current (some first) = false
is_current none = false

unfoldable pub enables_advisory : List String → Option AdvisoryContract → Bool
unfolding is_current
enables_advisory [] contract = false
enables_advisory (id ∷ ids) contract = is_current contract

abbrev pub component_name : String
component_name = "carla-viss-kuksa"

module _ (py : Library) where
  -- `load_payload_configuration` for a payload of schema version 2.
  unfoldable pub load_plain : Fields → Result PayloadConfiguration
  load_plain raw = do
    require_keys raw
        ("schemaVersion" ∷ "provider" ∷ "vehicleTelemetryProfile" ∷ "runtimeInterface" ∷ "timing"
          ∷ [])
        ("$comment" ∷ []) "component configuration"
    raise_if (not (is_int (get_or_null "schemaVersion" raw) 2))
        (value_error "component configuration schemaVersion must be 2")
    raise_if (not (is_str (get_or_null "provider" raw) component_name))
        (value_error "component provider identity is incompatible")
    raise_if (not (is_str (get_or_null "vehicleTelemetryProfile" raw) "0.1.1"))
        (value_error "vehicle telemetry profile is incompatible")
    raise_if (not (is_int (get_or_null "runtimeInterface" raw) 1))
        (value_error "provider runtime interface is incompatible")
    read_timing (get_or_null "timing" raw)
        (record { semantic_version = none; signals = base_signals py; advisory_enabled = false })

  module _ (F : Files) where
    -- `_load_release_payload_configuration`; `manifest` is the file `capability-manifest.json` beside
    -- the configuration.
    unfoldable pub load_release :
        Option (Result F.Bytes) → Fields → Profile → Result PayloadConfiguration
    load_release manifest raw profile = do
      require_keys raw
          ("schemaVersion" ∷ "provider" ∷ "semanticVersion" ∷ "capabilityManifest"
            ∷ "capabilityManifestSha256" ∷ "runtimeInterface" ∷ "timing" ∷ [])
          ("$comment" ∷ []) "component release configuration"
      raise_if
          (not (is_str (get_or_null "provider" raw) component_name)
            || not (is_int (get_or_null "runtimeInterface" raw) 1))
          (value_error "component release identity is incompatible")
      raise_if (not (is_str (get_or_null "semanticVersion" raw) profile.version))
          (value_error "component release version is incompatible")
      raise_if (not (is_str (get_or_null "capabilityManifest" raw) "capability-manifest.json"))
          (value_error "component capability manifest path is incompatible")
      raise_if (not (is_str (get_or_null "capabilityManifestSha256" raw) profile.manifest_sha256))
          (value_error "component capability manifest digest is incompatible")
      loaded ← load_manifest F manifest profile
      read_timing (get_or_null "timing" raw) (record {
        semantic_version = some profile.version;
        signals = profile.signals;
        advisory_enabled = enables_advisory profile.advisory_endpoint_ids profile.advisory_contract;
      })

    unfoldable pub load_with :
        Option (Result F.Bytes) → Fields → Option Profile → Result PayloadConfiguration
    load_with manifest raw none = err (value_error "component release profile is unavailable")
    load_with manifest raw (some profile) = load_release manifest raw profile

    -- `load_payload_configuration` of the object in the file.
    unfoldable pub load_payload :
        Option (Result F.Bytes) → Fields → Option Profile → Result PayloadConfiguration
    unfolding load_with
    load_payload manifest raw profile =
        if is_int (get_or_null "schemaVersion" raw) 3
        then load_with manifest raw profile
        else load_plain raw

    -- `_read_object`; `none` for a path that is no regular file, or a symbolic link.
    unfoldable pub read_object : Option (Result String) → String → Result Fields
    read_object none label = err (value_error (label <> " is unavailable"))
    read_object (some file) label = do
      text ← file
      value ← py.loads text
      elim value [ Json.obj raw ↦ ok raw | _ ↦ err (value_error (label <> " must be an object")) ]

    unfoldable pub load_payload_configuration :
        Option (Result String)
        → Option (Result F.Bytes)
        → Option Profile
        → Result PayloadConfiguration
    load_payload_configuration file manifest profile = do
      raw ← read_object file "component configuration"
      load_payload manifest raw profile

-- `reconnect_delay = min(reconnect_delay * 2, maximum_delay)`, in milliseconds.
unfoldable pub next_delay : PayloadConfiguration → ℕ → ℕ
next_delay c delay = if leb (delay * 2) c.reconnect_max_ms then delay * 2 else c.reconnect_max_ms

-- The delay after so many failures in a row.
unfoldable pub delay_after : PayloadConfiguration → ℕ → ℕ
delay_after c ℕ.zero = c.reconnect_initial_ms
delay_after c (ℕ.suc n) = next_delay c (delay_after c n)
