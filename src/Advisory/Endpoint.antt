-- ===== src/Advisory/Endpoint.antt =====
-- advisory.py: the constants, the table `ENDPOINTS`, and the types `Caller` and `Decision`. Times are
-- in microseconds.
use aos_vehicle_platform.Prelude.{ℕ, String, Bool, false, ◌&&◌, List, [], ◌∷◌}
use aos_vehicle_platform.Prelude.{◌==◌, string_eq}
use aos_vehicle_platform.Prelude.Dict.{Dict}
use aos_vehicle_platform.Python.{same_set}

abbrev pub max_request_bytes : ℕ
max_request_bytes = 2048

abbrev pub max_status_bytes : ℕ
max_status_bytes = 1024

abbrev pub max_acceptance_age : ℕ
max_acceptance_age = 2_000_000

abbrev pub max_future_clock_skew : ℕ
max_future_clock_skew = 100_000

abbrev pub max_lease : ℕ
max_lease = 30_000_000

abbrev pub min_refresh_interval : ℕ
min_refresh_interval = 10_000_000

abbrev pub min_state_change_interval : ℕ
min_state_change_interval = 1_000_000

abbrev pub replay_retention : ℕ
replay_retention = 300_000_000

abbrev pub replay_capacity_per_endpoint : ℕ
replay_capacity_per_endpoint = 512

pub record Endpoint : Type 0 where
  pub endpoint_id : String
  pub owner_service : String
  pub functional_profile : String
  pub request_path : String
  pub status_path : String
  pub recommendations : List String
  pub set_reason : String

abbrev pub brake_health : Endpoint
brake_health = record {
  endpoint_id = "BRAKE_HEALTH_ADVISORY";
  owner_service = "BRAKE_HEALTH";
  functional_profile = "v3";
  request_path = "Vehicle.OEM.BrakeHealth.Advisory.Request";
  status_path = "Vehicle.OEM.BrakeHealth.Advisory.GatewayStatus";
  recommendations = "INSPECTION_RECOMMENDED" ∷ [];
  set_reason = "PREDICTED_BRAKE_DEGRADATION";
}

abbrev pub tire_health : Endpoint
tire_health = record {
  endpoint_id = "TIRE_HEALTH_ADVISORY";
  owner_service = "TIRE_HEALTH";
  functional_profile = "v1";
  request_path = "Vehicle.OEM.TireHealth.Advisory.Request";
  status_path = "Vehicle.OEM.TireHealth.Advisory.GatewayStatus";
  recommendations = "TIRE_INSPECTION_RECOMMENDED" ∷ "TIRE_REPLACEMENT_RECOMMENDED" ∷ [];
  set_reason = "PREDICTED_TIRE_WEAR";
}

-- `ENDPOINTS`
abbrev pub endpoints : Dict String Endpoint
endpoints =
    ("Vehicle.OEM.BrakeHealth.Advisory.Request", brake_health)
    ∷ ("Vehicle.OEM.TireHealth.Advisory.Request", tire_health)
    ∷ []

-- `ENDPOINT_BY_STATUS`
abbrev pub endpoint_by_status : Dict String Endpoint
endpoint_by_status =
    (brake_health.status_path, brake_health) ∷ (tire_health.status_path, tire_health) ∷ []

-- `==` of the dataclass.
unfoldable pub same_endpoint : Endpoint → Endpoint → Bool
same_endpoint a b =
    a.endpoint_id == b.endpoint_id
    && a.owner_service == b.owner_service
    && a.functional_profile == b.functional_profile
    && a.request_path == b.request_path
    && a.status_path == b.status_path
    && same_set a.recommendations b.recommendations
    && a.set_reason == b.set_reason

pub record Caller : Type 0 where
  pub service_id : String
  pub functional_profile : String
  pub authority : String

pub record Decision : Type 0 where
  pub accepted : Bool
  pub reason : String
  pub forwarded : Bool
  pub application_success : Bool

-- `Decision(False, reason)`
abbrev pub refused : String → Decision
refused reason = record {
  accepted = false;
  reason = reason;
  forwarded = false;
  application_success = false;
}
