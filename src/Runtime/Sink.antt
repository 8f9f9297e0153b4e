-- ===== src/Runtime/Sink.antt =====
-- runtime.py: the class `KuksaSink`, which publishes to the databroker.

mod Tests
pub mod Failed
pub mod Published
pub mod Sent
pub mod Waiting
use aos_vehicle_platform.Prelude.{
  ℕ, zero, suc, ◌+◌, ◌-◌, leb, String, Bool, true, false, not, ◌||◌, ◌++◌, Option, none, some, List,
  [], ◌∷◌, map, Result, ok, err, Exception, key_error, value_error, kuksa_unavailable, other_error,
  provider_credential_unavailable, ◌>>=◌, ◌==◌, string_eq, nat_eq, if◌then◌else◌,
}
use aos_vehicle_platform.Prelude.Dict.{Dict, lookup}
use aos_vehicle_platform.Prelude.Text.{codes, every}
use aos_vehicle_platform.Bridge.Signal.{SignalSpec, SignalValue}
use aos_vehicle_platform.Bridge.Snapshot.{Values}
use aos_vehicle_platform.Bridge.State.{TelemetrySink}
use aos_vehicle_platform.Advisory.Endpoint.{endpoints, endpoint_by_status}
use aos_vehicle_platform.Transport.Producer.{readiness_paths}

-- `kuksa_client`, the clocks and the token's file. What they do is a step of the world.
pub record Databroker : Type 1 where
  pub World : Type 0
  pub Client : Type 0
  -- `time.monotonic()` and `time.time()` where they are read, and `time.sleep`
  pub monotonic : World → ℕ
  pub time : World → ℕ
  pub sleep : ℕ → World → World
  -- What happens between two readings.
  pub pass : World → World
  -- `token.read_text(encoding="utf-8").strip()`, `none` for an `OSError` or a `UnicodeError`
  pub read_token : World → Option String × World
  -- `VSSClient(…)` of the configuration with this token, and its `connect`
  pub connected_client : String → World → Result Client × World
  -- `set(updates, try_v2=False, timeout=…)` of values, and of one text
  pub set : Client → Values → ℕ → World → Result (Unit {0}) × World
  pub set_text : Client → String → String → ℕ → World → Result (Unit {0}) × World
  pub get_target_values :
      Client → List String → ℕ → World → Result (Dict String (Option String)) × World
  pub disconnect : Client → World → Result (Unit {0}) × World

abbrev pub publication_budget : ℕ
publication_budget = 2_000_000

abbrev pub longest_sleep : ℕ
longest_sleep = 50_000

-- `max(latest, item.timestamp) if latest is not None else item.timestamp`
unfoldable pub later : Option ℕ → ℕ → ℕ
later none t = t
later (some latest) t = if leb latest t then t else latest

unfoldable pub latest_after : Option ℕ → Option SignalValue → Option ℕ
latest_after latest none = latest
latest_after latest (some item) = some (later latest item.timestamp)

-- `values[signal_spec.path]`
unfoldable pub value_at : String → Values → Result (Option SignalValue)
value_at path values = elim (lookup path values) [
  | none ↦ err (key_error path)
  | some item ↦ ok item
]

-- The loop over the signals: the updates, and the latest timestamp of them.
unfoldable pub updates_of : List SignalSpec → Values → Option ℕ → Result (Values × Option ℕ)
updates_of [] values latest = ok ([], latest)
updates_of (signal ∷ signals) values latest = do
  item ← value_at signal.path values
  (updates, final) ← updates_of signals values (latest_after latest item)
  ok ((signal.path, item) ∷ updates, final)

-- `not token or "\n" in token`
unfoldable pub is_unusable : String → Bool
is_unusable token = token == "" || not (every (λ c. not (c == 10)) (codes token))

-- What `except ProviderCredentialUnavailable` and `except Exception` let out.
unfoldable pub raised_by_publish : Exception → Exception
raised_by_publish provider_credential_unavailable = provider_credential_unavailable
raised_by_publish e = kuksa_unavailable

-- `min(ahead, 0.05)`
unfoldable pub nap : ℕ → ℕ
nap ahead = if leb ahead longest_sleep then ahead else longest_sleep

module _ (D : Databroker) where
  pub record KuksaSink : Type 0 where
    pub client : Option D.Client
    pub world : D.World

  -- A client whose `disconnect` raises is kept.
  unfoldable pub disconnected :
      D.Client → Result (Unit {0}) × D.World → Result (Unit {0}) × KuksaSink
  disconnected client (ok u, w) = (ok tt, record { client = none; world = w })
  disconnected client (err e, w) = (err e, record { client = some client; world = w })

  unfoldable pub close : KuksaSink → Result (Unit {0}) × KuksaSink
  close s = elim s.client [
    | none ↦ (ok tt, s)
    | some client ↦ disconnected client (D.disconnect client s.world)
  ]

  -- What `close` raises comes before the exception at hand.
  unfoldable pub raise_after {ℓ} :
      {A : Type ℓ} → Exception → Result (Unit {0}) × KuksaSink → Result A × KuksaSink
  raise_after error (ok u, s) = (err error, s)
  raise_after error (err e, s) = (err e, s)

  -- `self.close()`, then an exception.
  unfoldable pub close_and_raise {ℓ} : {A : Type ℓ} → Exception → KuksaSink → Result A × KuksaSink
  close_and_raise error s = raise_after error (close s)

  unfoldable pub opened : Result D.Client × D.World → Result D.Client × KuksaSink
  opened (ok client, w) = (ok client, record { client = some client; world = w })
  opened (err e, w) = (err e, record { client = none; world = w })

  unfoldable pub use_token : Option String × D.World → Result D.Client × KuksaSink
  unfolding opened
  use_token (none, w) = (err provider_credential_unavailable, record { client = none; world = w })
  use_token (some token, w) =
      if is_unusable token
      then (err provider_credential_unavailable, record { client = none; world = w })
      else opened (D.connected_client token w)

  -- `_connect`
  unfoldable pub connect : KuksaSink → Result D.Client × KuksaSink
  unfolding use_token
  connect s = elim s.client [
    | some client ↦ (ok client, s)
    | none ↦ use_token (D.read_token s.world)
  ]

  -- `while latest is not None`, with fuel; `none` where it is used up.
  unfoldable pub wait_until : ℕ → ℕ → ℕ → D.World → Option (Result (Unit {0}) × D.World)
  wait_until zero latest deadline w = none
  wait_until (suc fuel) latest deadline w = elim (leb latest (D.time w)) [
    | true ↦ some (ok tt, w)
    | false ↦
        let ahead = latest - D.time w in
        let w' = D.pass w in
        elim (leb (deadline - D.monotonic w') ahead) [
          | true ↦ some (err kuksa_unavailable, w')
          | false ↦ wait_until fuel latest deadline (D.sleep (nap ahead) w')
        ]
  ]

  unfoldable pub wait_for : Option ℕ → ℕ → D.World → Option (Result (Unit {0}) × D.World)
  wait_for none deadline w = some (ok tt, w)
  wait_for (some latest) deadline w = wait_until (suc publication_budget) latest deadline w

  unfoldable pub after_set : D.Client → Result (Unit {0}) × D.World → Result (Unit {0}) × KuksaSink
  after_set client (ok u, w) = (ok tt, record { client = some client; world = w })
  after_set client (err e, w) =
      close_and_raise (raised_by_publish e) (record { client = some client; world = w })

  -- `remaining = deadline - time.monotonic()` and what follows it.
  unfoldable pub set_in_time : D.Client → Values → ℕ → D.World → Result (Unit {0}) × KuksaSink
  set_in_time client updates deadline w =
      let done = after_set client (D.set client updates (deadline - D.monotonic w) w) in
      if leb deadline (D.monotonic w)
      then close_and_raise kuksa_unavailable (record { client = some client; world = w })
      else done

  -- The rest of `publish` once the client waited.
  unfoldable pub after_wait :
      D.Client → Values → ℕ → Result (Unit {0}) × D.World → Result (Unit {0}) × KuksaSink
  after_wait client updates deadline (ok u, w) = set_in_time client updates deadline (D.pass w)
  after_wait client updates deadline (err e, w) =
      close_and_raise (raised_by_publish e) (record { client = some client; world = w })

  -- `other_error` where the fuel is used up.
  unfoldable pub after_connect :
      Values → Option ℕ → ℕ → Result D.Client × KuksaSink → Result (Unit {0}) × KuksaSink
  after_connect updates latest deadline (err e, s) = close_and_raise (raised_by_publish e) s
  after_connect updates latest deadline (ok client, s) = elim (wait_for latest deadline s.world) [
    | none ↦ (err other_error, s)
    | some waited ↦ after_wait client updates deadline waited
  ]

  unfoldable pub publish : List SignalSpec → Values → KuksaSink → Result (Unit {0}) × KuksaSink
  publish signals values s =
      let deadline = D.monotonic s.world + publication_budget in
      elim (updates_of signals values none) [
        | err e ↦ (err e, s)
        | ok (updates, latest) ↦
            after_connect updates latest deadline (connect (record s { world = D.pass s.world }))
      ]

  -- The sink as the bridge sees it.
  abbrev pub kuksa_sink : List SignalSpec → TelemetrySink
  kuksa_sink signals = record { State = KuksaSink; publish = publish signals }

  -- `except Exception` of the advisory calls: whatever was raised.
  settle {ℓ} : {A : Type ℓ} → D.Client → Result A × D.World → Result A × KuksaSink
  settle client (ok a, w) = (ok a, record { client = some client; world = w })
  settle client (err e, w) =
      close_and_raise kuksa_unavailable (record { client = some client; world = w })

  set_status : String → String → Result D.Client × KuksaSink → Result (Unit {0}) × KuksaSink
  unfolding settle
  set_status path value (err e, s) = close_and_raise kuksa_unavailable s
  set_status path value (ok client, s) =
      settle client (D.set_text client path value publication_budget s.world)

  unfoldable pub publish_status : String → String → KuksaSink → Result (Unit {0}) × KuksaSink
  unfolding set_status
  publish_status path value s = elim (lookup path endpoint_by_status) [
    | none ↦ (err (value_error "unauthorized Gateway status path"), s)
    | some endpoint ↦ set_status path value (connect s)
  ]

  -- `{path: point.value for … if point is not None}`
  unfoldable pub present : Dict String (Option String) → Dict String String
  present [] = []
  present ((path, none) ∷ points) = present points
  present ((path, some value) ∷ points) = (path, value) ∷ present points

  observed :
      Result (Dict String (Option String)) × KuksaSink → Result (Dict String String) × KuksaSink
  observed (ok points, s) = (ok (present points), s)
  observed (err e, s) = (err e, s)

  get_targets : Result D.Client × KuksaSink → Result (Dict String String) × KuksaSink
  unfolding settle observed
  get_targets (err e, s) = close_and_raise kuksa_unavailable s
  get_targets (ok client, s) = observed (
      settle client (
        D.get_target_values client (map (λ e. e.0) endpoints ++ readiness_paths) publication_budget
          s.world))

  unfoldable pub read_advisory_targets : KuksaSink → Result (Dict String String) × KuksaSink
  unfolding get_targets
  read_advisory_targets s = get_targets (connect s)
