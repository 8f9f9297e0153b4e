-- ===== src/Manifest/Releases.antt =====
-- The release profiles, releases/v1.py, v1_0_14.py, v1_0_15.py, v2.py and v3.py, and the contracts and
-- endpoints of manifest.py.
use aos_vehicle_platform.Prelude.{String, Option, some, List, [], ◌∷◌, ◌++◌}
use aos_vehicle_platform.Prelude.Dict.{Dict}
use aos_vehicle_platform.Python.{Library}
use aos_vehicle_platform.Bridge.Signal.{SignalSpec, finite_float, nonnegative_float, base_signals}

-- A dict whose values are text.
abbrev pub Texts : Type 0
Texts = Dict String String

abbrev pub vdp_contract : Texts
vdp_contract =
    ("contractId", "aosedge-demo-vdp-compatibility")
    ∷ ("contractVersion", "1.0.1")
    ∷ ("sha256", "8e58e18e9d99a13409af6813e573cbe1c690e439ad746224426801f6b080c871")
    ∷ []

abbrev pub viss_contract : Texts
viss_contract =
    ("contractId", "aosedge-demo-viss-trust-telemetry-profile")
    ∷ ("contractVersion", "1.1.0")
    ∷ ("sha256", "4a1a2bd804c3a49f707b5e640632bd8a0357901f59e4615c340622b043d4c12c")
    ∷ []

abbrev pub hardware_profile : Texts
hardware_profile =
    ("profileVersion", "1.0.0")
    ∷ ("sha256", "ac0ba26464219482dcb41e56ebbc1538489e13bd6c84725dbc124e59514cb7e5")
    ∷ []

-- `ADVISORY_CONTRACT` and `CURRENT_ADVISORY_CONTRACT`, which profiles choose from.
pub data AdvisoryContract : Type 0 where
  first current : AdvisoryContract

unfoldable pub contract_of : AdvisoryContract → Texts
contract_of first =
    ("contractId", "aosedge-demo-typed-qm-advisory")
    ∷ ("contractVersion", "1.0.2")
    ∷ ("sha256", "f7ae78148fb3b3265c8b773117126665afb1edd97a73f59db5a1f3af7c223487")
    ∷ []
contract_of current =
    ("contractId", "aosedge-demo-typed-qm-advisory")
    ∷ ("contractVersion", "1.2.0")
    ∷ ("sha256", "e055578130968e69344de981634dd69a43a1b851e437fa8dcfa77771b6c1e24c")
    ∷ []

-- `ADVISORY_ENDPOINTS`
abbrev pub advisory_endpoints : Dict String Texts
advisory_endpoints =
    (
      "BRAKE_HEALTH_ADVISORY",
      ("id", "BRAKE_HEALTH_ADVISORY")
          ∷ ("ownerService", "BRAKE_HEALTH")
          ∷ ("requestPath", "Vehicle.OEM.BrakeHealth.Advisory.Request")
          ∷ ("statusPath", "Vehicle.OEM.BrakeHealth.Advisory.GatewayStatus")
          ∷ [],
    )
    ∷ (
      "TIRE_HEALTH_ADVISORY",
      ("id", "TIRE_HEALTH_ADVISORY")
          ∷ ("ownerService", "TIRE_HEALTH")
          ∷ ("requestPath", "Vehicle.OEM.TireHealth.Advisory.Request")
          ∷ ("statusPath", "Vehicle.OEM.TireHealth.Advisory.GatewayStatus")
          ∷ [],
    )
    ∷ []

pub record Profile : Type 0 where
  pub version : String
  pub manifest_sha256 : String
  pub signals : List SignalSpec
  pub capabilities : List String
  pub advisory_endpoint_ids : List String
  -- `getattr(profile, "ADVISORY_CONTRACT", ADVISORY_CONTRACT)`; a contract that is neither of the two
  -- is `none`.
  pub advisory_contract : Option AdvisoryContract

pub data Release : Type 0 where
  v1 v1_0_14 v1_0_15 v2 v3 : Release

module _ (py : Library) where
  wheel_speed : String → SignalSpec
  wheel_speed path = record { path = path; convert = nonnegative_float py }

  -- The signals that 2.0.0 adds.
  unfoldable pub wheel_signals : List SignalSpec
  unfolding wheel_speed
  wheel_signals =
      wheel_speed "Vehicle.Chassis.Axle.Row1.Wheel.Left.AngularSpeed"
      ∷ wheel_speed "Vehicle.Chassis.Axle.Row1.Wheel.Right.AngularSpeed"
      ∷ wheel_speed "Vehicle.Chassis.Axle.Row2.Wheel.Left.AngularSpeed"
      ∷ wheel_speed "Vehicle.Chassis.Axle.Row2.Wheel.Right.AngularSpeed"
      ∷ wheel_speed "Vehicle.Chassis.Axle.Row1.Wheel.Left.Speed"
      ∷ wheel_speed "Vehicle.Chassis.Axle.Row1.Wheel.Right.Speed"
      ∷ wheel_speed "Vehicle.Chassis.Axle.Row2.Wheel.Left.Speed"
      ∷ wheel_speed "Vehicle.Chassis.Axle.Row2.Wheel.Right.Speed"
      ∷ []

  slip : String → SignalSpec
  slip path = record { path = path; convert = finite_float py }

  -- The signals that 3.0.0 adds.
  unfoldable pub slip_signals : List SignalSpec
  unfolding slip
  slip_signals =
      slip "Vehicle.CarlaSimulation.ChaosWheel.Row1.Left.LongitudinalSlip"
      ∷ slip "Vehicle.CarlaSimulation.ChaosWheel.Row1.Right.LongitudinalSlip"
      ∷ slip "Vehicle.CarlaSimulation.ChaosWheel.Row2.Left.LongitudinalSlip"
      ∷ slip "Vehicle.CarlaSimulation.ChaosWheel.Row2.Right.LongitudinalSlip"
      ∷ slip "Vehicle.CarlaSimulation.ChaosWheel.Row1.Left.LateralSlipAngle"
      ∷ slip "Vehicle.CarlaSimulation.ChaosWheel.Row1.Right.LateralSlipAngle"
      ∷ slip "Vehicle.CarlaSimulation.ChaosWheel.Row2.Left.LateralSlipAngle"
      ∷ slip "Vehicle.CarlaSimulation.ChaosWheel.Row2.Right.LateralSlipAngle"
      ∷ []

  base_profile : String → String → Profile
  base_profile version sha256 = record {
    version = version;
    manifest_sha256 = sha256;
    signals = base_signals py;
    capabilities = "INBOUND_BASE_DYNAMICS" ∷ [];
    advisory_endpoint_ids = [];
    advisory_contract = some first;
  }

  -- The modules of releases/.
  unfoldable pub profile_of : Release → Profile
  unfolding base_profile wheel_signals slip_signals
  profile_of v1 =
      base_profile "1.0.0" "fcca3270d6467827d34ad28fb99c7e71a7c46ebf4c0943de153fb9ec1ecb1a9b"
  profile_of v1_0_14 =
      base_profile "1.0.14" "a67c7a1e137943e025da49ced2bd8abb6106a18cd2500675ce30bacde0633f55"
  profile_of v1_0_15 =
      base_profile "1.0.15" "bbd8c0d4c7c6252021f4813018be0fcd226c06085a0ae2e202b0bdf0514e530f"
  profile_of v2 = record {
    version = "2.0.0";
    manifest_sha256 = "6abda9b8771d01fa5fe2ce4280cf164973c4944739c732d0326134e4cf43e629";
    signals = base_signals py ++ wheel_signals;
    capabilities = "INBOUND_BASE_DYNAMICS" ∷ "INBOUND_WHEEL_SPEEDS" ∷ [];
    advisory_endpoint_ids = [];
    advisory_contract = some first;
  }
  profile_of v3 = record {
    version = "3.0.0";
    manifest_sha256 = "8b89a0b1afe715b86ac597628569ed46457327dbe23bf60ce18d893b1294680f";
    signals = base_signals py ++ wheel_signals ++ slip_signals;
    capabilities =
        "INBOUND_BASE_DYNAMICS" ∷ "INBOUND_WHEEL_SPEEDS" ∷ "INBOUND_WHEEL_SLIP"
        ∷ "OUTBOUND_BRAKE_HEALTH_ADVISORY" ∷ "OUTBOUND_TIRE_HEALTH_ADVISORY" ∷ [];
    advisory_endpoint_ids = "BRAKE_HEALTH_ADVISORY" ∷ "TIRE_HEALTH_ADVISORY" ∷ [];
    advisory_contract = some first;
  }
