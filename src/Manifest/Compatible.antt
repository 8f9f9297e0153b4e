-- ===== src/Manifest/Compatible.antt =====
-- The release profiles beside the bridge and the transport: what a profile of releases/ selects is
-- what bridge.py and advisory_transport.py can carry together.
use aos_vehicle_platform.Prelude.{refl, List, [], ◌∷◌, ◌++◌, string_eq, inl, inr}
use aos_vehicle_platform.Prelude.Lists.{All}
use aos_vehicle_platform.Prelude.Dict.{lookup}
use aos_vehicle_platform.Python.{Library}
use aos_vehicle_platform.Bridge.Signal.{SignalSpec, base_signals}
use aos_vehicle_platform.Bridge.Signal.Convert.{HasStandard, base_signals-HasStandard}
use aos_vehicle_platform.Transport.Consume.{is_status_path}
use aos_vehicle_platform.Transport.Telemetry.{IsApart}
use aos_vehicle_platform.Manifest.Releases.{
  Release, v1, v1_0_14, v1_0_15, v2, v3, profile_of, wheel_signals, slip_signals,
}

All-append {ℓ κ} :
    {A : Type ℓ} (P : A → Type κ) (xs ys : List A) → All P xs → All P ys → All P (xs ++ ys)
All-append P [] ys a b = b
All-append P (x ∷ xs) ys (p, a) b = (p, All-append P xs ys a b)

module _ (py : Library) where
  base-IsApart : IsApart (base_signals py)
  unfolding is_status_path lookup string_eq
  base-IsApart = (refl, (refl, (refl, (refl, (refl, (refl, (refl, tt)))))))

  wheel-IsApart : IsApart (wheel_signals py)
  unfolding is_status_path lookup string_eq wheel_signals
  wheel-IsApart = (refl, (refl, (refl, (refl, (refl, (refl, (refl, (refl, tt))))))))

  slip-IsApart : IsApart (slip_signals py)
  unfolding is_status_path lookup string_eq slip_signals
  slip-IsApart = (refl, (refl, (refl, (refl, (refl, (refl, (refl, (refl, tt))))))))

  wheel-HasStandard : All (HasStandard py) (wheel_signals py)
  unfolding wheel_signals
  wheel-HasStandard = let s = inr (inl refl) in (s, (s, (s, (s, (s, (s, (s, (s, tt))))))))

  slip-HasStandard : All (HasStandard py) (slip_signals py)
  unfolding slip_signals
  slip-HasStandard = let s = inl refl in (s, (s, (s, (s, (s, (s, (s, (s, tt))))))))

  -- A release reads signals with the standard converters, none at a status path.
  abbrev IsCarried : List SignalSpec → Type 0
  IsCarried signals = IsApart signals × All (HasStandard py) signals

  join : (xs ys : List SignalSpec) → IsCarried xs → IsCarried ys → IsCarried (xs ++ ys)
  join xs ys (a, b) (c, d) = (All-append _ xs ys a c, All-append (HasStandard py) xs ys b d)

  base-IsCarried : IsCarried (base_signals py)
  base-IsCarried = (base-IsApart, base_signals-HasStandard py)

  -- The signals of every release are ones that the bridge converts with its three converters, and that
  -- the transport leaves to the bridge.
  profile_of-IsCarried : (r : Release) → IsCarried (profile_of py r).signals
  unfolding profile_of
  profile_of-IsCarried v1 = base-IsCarried
  profile_of-IsCarried v1_0_14 = base-IsCarried
  profile_of-IsCarried v1_0_15 = base-IsCarried
  profile_of-IsCarried v2 =
      join (base_signals py) (wheel_signals py) base-IsCarried (wheel-IsApart, wheel-HasStandard)
  profile_of-IsCarried v3 =
      join (base_signals py) (wheel_signals py ++ slip_signals py) base-IsCarried (
        join (wheel_signals py) (slip_signals py) (wheel-IsApart, wheel-HasStandard)
          (slip-IsApart, slip-HasStandard))
