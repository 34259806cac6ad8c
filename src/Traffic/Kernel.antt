-- ===== src/Traffic/Kernel.antt =====
-- What the reconciliation relies on of the enforcer, and what policies ask of the kernel.
use ayad_network_manager.Base.{
  ℕ, ◌*◌, Bool, true, false, ◌&&◌, Option, none, some, List, [], ◌∷◌, ◌≡◌, Text, ◌==◌, nat_eq,
  text_eq, if◌then◌else◌,
}
use ayad_network_manager.Base.Int.{pos}
use ayad_network_manager.Base.Map.{has}
use ayad_network_manager.Base.Effects.{ok, err}
use ayad_network_manager.Domain.Device.{Device, DevicePolicy}
use ayad_network_manager.Domain.TcClassId.{Direction, download, upload}
use ayad_network_manager.Traffic.{
  is_throttled, is_some, limit_in, limit, limit_bits, reconcile_state,
}
use ayad_network_manager.Traffic.Reconciliation.{Services, class_of}

abbrev pub same_direction : Direction → Direction → Bool
same_direction download download = true
same_direction upload upload = true
same_direction _ _ = false

-- The rate in bits of each class, as `rate s direction class`. A limit that ends well gives the
-- device's class its rate and touches no other; a cleanup that ends well leaves the expected classes
-- of its direction; without base state no class is left.
pub record IsEnforcer {S : Type 0} (env : Services S) (rate : S → Direction → Text → Option ℕ)
    : Type 0 where
  pub limit_rate :
      (direction : Direction) (d : Device) (milli : ℕ) (s : S)
      → (limit (env.enforcer) direction d (pos milli) s).0 ≡ ok tt
      → (dir : Direction) (c : Text)
      → rate (limit (env.enforcer) direction d (pos milli) s).1 dir c ≡ (
          if same_direction direction dir && class_of env direction d == c
          then some (milli * 1000)
          else rate s dir c)
  pub limit_bits_rate :
      (direction : Direction) (d : Device) (bits : ℕ) (s : S)
      → (limit_bits (env.enforcer) direction d bits s).0 ≡ ok tt
      → (dir : Direction) (c : Text)
      → rate (limit_bits (env.enforcer) direction d bits s).1 dir c ≡ (
          if same_direction direction dir && class_of env direction d == c
          then some bits
          else rate s dir c)
  pub reconcile_rate :
      (direction : Direction) (classes : List Text) (s : S)
      → (reconcile_state (env.enforcer) direction classes s).0 ≡ ok tt
      → (dir : Direction) (c : Text)
      → rate (reconcile_state (env.enforcer) direction classes s).1 dir c ≡ (
          if same_direction direction dir
          then (if has c classes then rate s dir c else none)
          else rate s dir c)
  pub clear_base_rate :
      (s : S)
      → (env.enforcer.clear_base_state s).0 ≡ ok tt
      → (dir : Direction) (c : Text) → rate (env.enforcer.clear_base_state s).1 dir c ≡ none

abbrev pub in_bits : Option ℕ → Option ℕ
in_bits none = none
in_bits (some milli) = some (milli * 1000)

module _ {S : Type 0} (env : Services S) where
  -- The rate that a policy asks for: the throttle's, or the policy's own limit.
  abbrev pub effective : Direction → DevicePolicy → Option ℕ
  effective direction p =
      if is_throttled p then some env.throttle_rate.bits else in_bits (limit_in direction p)

  -- The rate that the stores ask for a device: only a validated device with an address has one.
  abbrev pub asked : S → Direction → Device → Option ℕ
  asked s direction d =
      if d.identity_validated && is_some d.ip
      then elim (env.policies.find_by_device_id (d.id) s) [
        | err e ↦ none
        | ok none ↦ none
        | ok (some p) ↦ effective direction p
      ]
      else none

  -- The rate that the stores ask for a class: that of the last device with this class that has one.
  unfoldable pub wanted : S → Direction → Text → List Device → Option ℕ
  wanted s direction c [] = none
  wanted s direction c (d ∷ ds) = elim (wanted s direction c ds) [
    | some bits ↦ some bits
    | none ↦ if class_of env direction d == c then asked s direction d else none
  ]

  -- The same of the devices that a cycle has chosen.
  unfoldable pub wanted_of : Direction → Text → List (Device × DevicePolicy) → Option ℕ
  wanted_of direction c [] = none
  wanted_of direction c ((d, p) ∷ rest) = elim (wanted_of direction c rest) [
    | some bits ↦ some bits
    | none ↦ if class_of env direction d == c then effective direction p else none
  ]
