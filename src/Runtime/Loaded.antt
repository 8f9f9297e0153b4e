-- ===== src/Runtime/Loaded.antt =====
-- What holds of a payload configuration that runtime.py loaded.
use aos_vehicle_platform.Prelude.{
  ℕ, zero, suc, ◌*◌, ◌≤◌, ltb, String, ◌≡◌, refl, sym, ap, Bool, false, not, ◌||◌, ◌⊎◌, inl, inr,
  Option, none, some, [], ◌∷◌, arith, Result, ok, ◌==◌, nat_eq, string_eq, raise_if, >>=-eq-ok,
  ok-injective, subst, value_error, Bool-cases,
}
use aos_vehicle_platform.Python.{Json, Fields, Library, get_or_null, is_int, is_str}
use aos_vehicle_platform.Bridge.Signal.{base_signals}
use aos_vehicle_platform.Bridge.State.{TelemetrySink, Bridge, new_bridge}
use aos_vehicle_platform.Manifest.Releases.{Profile}
use aos_vehicle_platform.Manifest.{Files, load_manifest}
use aos_vehicle_platform.Runtime.Configuration.{
  PayloadConfiguration, Payload, integer, require_keys, read_timing, timing_fields, load_plain,
  load_release, load_with, load_payload, read_object, load_payload_configuration, next_delay,
  delay_after, component_name,
}

-- The times are within their bounds.
pub record IsTimed (c : PayloadConfiguration) : Type 0 where
  pub period_low : 50 ≤ c.subscription_period_ms
  pub period_high : c.subscription_period_ms ≤ 60_000
  pub freshness_low : 100 ≤ c.freshness_timeout_ms
  pub freshness_high : c.freshness_timeout_ms ≤ 60_000
  pub initial_low : 100 ≤ c.reconnect_initial_ms
  pub initial_limit : c.reconnect_initial_ms ≤ 60_000
  pub initial_high : c.reconnect_initial_ms ≤ c.reconnect_max_ms
  pub max_low : 100 ≤ c.reconnect_max_ms
  pub max_high : c.reconnect_max_ms ≤ 300_000

integer-bounds :
    (container : Fields) (key : String) (low high n : ℕ)
    → integer container key low high ≡ ok n
    → (low ≤ n) × (n ≤ high)
unfolding integer
integer-bounds container key low high n h = (ground arith, ground arith)

read_timing-IsTimed :
    (value : Json) (payload : Payload) (c : PayloadConfiguration)
    → read_timing value payload ≡ ok c
    → IsTimed c × (c.signals ≡ payload.signals) × (c.semantic_version ≡ payload.semantic_version)
unfolding read_timing
read_timing-IsTimed value payload c h =
    let (timing, _, h₁) = >>=-eq-ok (timing_fields value) _ h in
    let (_, _, h₂) =
      >>=-eq-ok
        (require_keys timing
          ("subscriptionPeriodMs" ∷ "freshnessTimeoutMs" ∷ "reconnectInitialMs" ∷ "reconnectMaxMs"
            ∷ [])
          [] "component timing configuration")
        _ h₁ in
    let (p, e₁, h₃) = >>=-eq-ok (integer timing "subscriptionPeriodMs" 50 60_000) _ h₂ in
    let (f, e₂, h₄) = >>=-eq-ok (integer timing "freshnessTimeoutMs" 100 60_000) _ h₃ in
    let (i, e₃, h₅) = >>=-eq-ok (integer timing "reconnectInitialMs" 100 60_000) _ h₄ in
    let (m, e₄, h₆) = >>=-eq-ok (integer timing "reconnectMaxMs" 100 300_000) _ h₅ in
    let (_, e₅, h₇) =
      >>=-eq-ok
        (raise_if (ltb m i) (value_error "initial reconnect delay must not exceed maximum delay")) _
        h₆ in
    let same = ok-injective h₇ in
    let (a, b) = integer-bounds timing "subscriptionPeriodMs" 50 60_000 p e₁ in
    let (a', b') = integer-bounds timing "freshnessTimeoutMs" 100 60_000 f e₂ in
    let (a'', i'') = integer-bounds timing "reconnectInitialMs" 100 60_000 i e₃ in
    let (m'', b'') = integer-bounds timing "reconnectMaxMs" 100 300_000 m e₄ in
    (
      subst IsTimed same (record {
        period_low = a;
        period_high = b;
        freshness_low = a';
        freshness_high = b';
        initial_low = a'';
        initial_limit = i'';
        initial_high = ground arith;
        max_low = m'';
        max_high = b'';
      }),
      ap (λ (x : PayloadConfiguration). x.signals) (sym same),
      ap (λ (x : PayloadConfiguration). x.semantic_version) (sym same),
    )

-- What a loaded payload is for: no release, with the signals of the bridge, or the given release,
-- whose manifest was there and valid, with the release's signals.
abbrev pub IsPayloadOf :
    (py : Library) (F : Files)
    → Option (Result F.Bytes)
    → Option Profile
    → PayloadConfiguration
    → Type 0
IsPayloadOf py F manifest profile c =
    ((c.semantic_version ≡ none) × (c.signals ≡ base_signals py))
    ⊎ ((p : Profile) × (profile ≡ some p)
        × (c.semantic_version ≡ some p.version)
        × (c.signals ≡ p.signals)
        × ((m : Json) × (load_manifest F manifest p ≡ ok m)))

load_plain-IsTimed :
    (py : Library) (raw : Fields) (c : PayloadConfiguration)
    → load_plain py raw ≡ ok c
    → IsTimed c × (c.semantic_version ≡ none) × (c.signals ≡ base_signals py)
unfolding load_plain
load_plain-IsTimed py raw c h =
    let (_, _, h₁) =
      >>=-eq-ok
        (require_keys raw
          ("schemaVersion" ∷ "provider" ∷ "vehicleTelemetryProfile" ∷ "runtimeInterface" ∷ "timing"
            ∷ [])
          ("$comment" ∷ []) "component configuration")
        _ h in
    let (_, _, h₂) =
      >>=-eq-ok
        (raise_if (not (is_int (get_or_null "schemaVersion" raw) 2))
          (value_error "component configuration schemaVersion must be 2"))
        _ h₁ in
    let (_, _, h₃) =
      >>=-eq-ok
        (raise_if (not (is_str (get_or_null "provider" raw) component_name))
          (value_error "component provider identity is incompatible"))
        _ h₂ in
    let (_, _, h₄) =
      >>=-eq-ok
        (raise_if (not (is_str (get_or_null "vehicleTelemetryProfile" raw) "0.1.1"))
          (value_error "vehicle telemetry profile is incompatible"))
        _ h₃ in
    let (_, _, h₅) =
      >>=-eq-ok
        (raise_if (not (is_int (get_or_null "runtimeInterface" raw) 1))
          (value_error "provider runtime interface is incompatible"))
        _ h₄ in
    let (timed, signals, version) = read_timing-IsTimed (get_or_null "timing" raw) _ c h₅ in
    (timed, version, signals)

module _ (py : Library) (F : Files) where
  load_release-IsTimed :
      (manifest : Option (Result F.Bytes)) (raw : Fields) (p : Profile) (c : PayloadConfiguration)
      → load_release py F manifest raw p ≡ ok c
      → IsTimed c
        × (c.semantic_version ≡ some p.version)
        × (c.signals ≡ p.signals)
        × ((m : Json) × (load_manifest F manifest p ≡ ok m))
  unfolding load_release
  load_release-IsTimed manifest raw p c h =
      let (_, _, h₁) =
        >>=-eq-ok
          (require_keys raw
            ("schemaVersion" ∷ "provider" ∷ "semanticVersion" ∷ "capabilityManifest"
              ∷ "capabilityManifestSha256" ∷ "runtimeInterface" ∷ "timing" ∷ [])
            ("$comment" ∷ []) "component release configuration")
          _ h in
      let (_, _, h₂) =
        >>=-eq-ok
          (raise_if
            (not (is_str (get_or_null "provider" raw) component_name)
              || not (is_int (get_or_null "runtimeInterface" raw) 1))
            (value_error "component release identity is incompatible"))
          _ h₁ in
      let (_, _, h₃) =
        >>=-eq-ok
          (raise_if (not (is_str (get_or_null "semanticVersion" raw) p.version))
            (value_error "component release version is incompatible"))
          _ h₂ in
      let (_, _, h₄) =
        >>=-eq-ok
          (raise_if (not (is_str (get_or_null "capabilityManifest" raw) "capability-manifest.json"))
            (value_error "component capability manifest path is incompatible"))
          _ h₃ in
      let (_, _, h₅) =
        >>=-eq-ok
          (raise_if (not (is_str (get_or_null "capabilityManifestSha256" raw) p.manifest_sha256))
            (value_error "component capability manifest digest is incompatible"))
          _ h₄ in
      let (m, valid, h₆) = >>=-eq-ok (load_manifest F manifest p) _ h₅ in
      let (timed, signals, version) = read_timing-IsTimed (get_or_null "timing" raw) _ c h₆ in
      (timed, version, signals, (m, valid))

  load_with-IsTimed :
      (manifest : Option (Result F.Bytes)) (raw : Fields) (profile : Option Profile)
      (c : PayloadConfiguration)
      → load_with py F manifest raw profile ≡ ok c
      → IsTimed c × IsPayloadOf py F manifest profile c
  unfolding load_with
  load_with-IsTimed manifest raw none c h = cc
  load_with-IsTimed manifest raw (some p) c h =
      let (timed, version, signals, valid) = load_release-IsTimed manifest raw p c h in
      (timed, inr (p, refl, version, signals, valid))

  load_payload-IsTimed :
      (manifest : Option (Result F.Bytes)) (raw : Fields) (profile : Option Profile)
      (c : PayloadConfiguration)
      → load_payload py F manifest raw profile ≡ ok c
      → IsTimed c × IsPayloadOf py F manifest profile c
  unfolding load_payload
  load_payload-IsTimed manifest raw profile c h =
      elim (Bool-cases (is_int (get_or_null "schemaVersion" raw) 3)) [
        | inl release ↦ load_with-IsTimed manifest raw profile c (rw (release, load_payload) at h)
        | inr plain ↦
            let (timed, version, signals) =
              load_plain-IsTimed py raw c (rw (plain, load_payload) at h) in
            (timed, inl (version, signals))
      ]

  -- A configuration that loads has its times within their bounds, the first reconnect delay at most
  -- the largest one, and is either for no release, with the bridge's own signals, or for the active
  -- release, with that release's signals, and only if the release's manifest is valid.
  pub load_payload_configuration-IsTimed :
      (file : Option (Result String)) (manifest : Option (Result F.Bytes))
      (profile : Option Profile) (c : PayloadConfiguration)
      → load_payload_configuration py F file manifest profile ≡ ok c
      → IsTimed c × IsPayloadOf py F manifest profile c
  unfolding load_payload_configuration
  load_payload_configuration-IsTimed file manifest profile c h =
      let (raw, _, h₁) = >>=-eq-ok (read_object py F file "component configuration") _ h in
      load_payload-IsTimed manifest raw profile c h₁

  -- What loads never stops the bridge from being built: its freshness timeout is positive.
  load_payload_configuration-new_bridge :
      (file : Option (Result String)) (manifest : Option (Result F.Bytes))
      (profile : Option Profile) (c : PayloadConfiguration) (K : TelemetrySink) (sink : K.State)
      (require_complete : Bool)
      → load_payload_configuration py F file manifest profile ≡ ok c
      → (b : Bridge K.State) × (new_bridge K sink
            (1000 * c.freshness_timeout_ms)
            c.signals
            require_complete
          ≡ ok b)
        × (b.signals ≡ c.signals)
        × (100_000 ≤ b.freshness_timeout)
  unfolding new_bridge
  load_payload_configuration-new_bridge file manifest profile c K sink require_complete h =
      let (timed, _) = load_payload_configuration-IsTimed file manifest profile c h in
      let low = timed.freshness_low in
      let positive : (1000 * c.freshness_timeout_ms == 0) ≡ false = ground (arith, low) in
      let b : Bridge K.State = record {
        sink = sink;
        freshness_timeout = 1000 * c.freshness_timeout_ms;
        signals = c.signals;
        require_complete_frames = require_complete;
        last_publish_at = none;
        last_source_timestamp = none;
        last_source_values = none;
        unavailable = false;
      } in
      (b, ground (arith, positive), refl, omega (arith, low))

next_delay-bounds :
    (c : PayloadConfiguration) (delay : ℕ)
    → IsTimed c
    → c.reconnect_initial_ms ≤ delay
    → delay ≤ c.reconnect_max_ms
    → (c.reconnect_initial_ms ≤ next_delay c delay) × (next_delay c delay ≤ c.reconnect_max_ms)
unfolding next_delay
next_delay-bounds c delay t low high =
    let i = t.initial_high in (ground (arith, i), ground (arith, i))

-- However often the connection fails in a row, the delay before the next attempt is at least the
-- first delay, and at most the largest, so between 0.1 and 300 seconds.
delay_after-bounds :
    (c : PayloadConfiguration) (failures : ℕ)
    → IsTimed c
    → (100 ≤ delay_after c failures)
      × (c.reconnect_initial_ms ≤ delay_after c failures)
      × (delay_after c failures ≤ c.reconnect_max_ms)
      × (c.reconnect_max_ms ≤ 300_000)
unfolding delay_after
delay_after-bounds c zero t = let i = t.initial_high in (t.initial_low, omega arith, i, t.max_high)
delay_after-bounds c (suc n) t =
    let (_, low, high, _) = delay_after-bounds c n t in
    let (l, h) = next_delay-bounds c (delay_after c n) t low high in
    let i = t.initial_low in (omega (arith, i, l), l, h, t.max_high)
