-- ===== src/Traffic/Reconciliation.antt =====
-- backend/src/application/enforcement/TrafficReconciliationService.ts. The failures that a cycle
-- collects, and logs, are what the model of a cycle answers.
use ayad_network_manager.Base.{
  Bool, not, ◌&&◌, ◌||◌, none, some, List, [], ◌∷◌, ◌++◌, Text, nat_eq, text_eq, if◌then◌else◌,
}
use ayad_network_manager.Base.Int.{pos}
use ayad_network_manager.Base.Map.{add}
use ayad_network_manager.Base.Effects.{ok, err, pure, ◌>>=◌, ◌>>◌}
use ayad_network_manager.Errors.{
  Error, invalid_throttle_rate, traffic_policy_failed, stale_download_failed, stale_upload_failed,
}
use ayad_network_manager.Domain.Device.{Device, DevicePolicy}
use ayad_network_manager.Domain.TcClassId.{Direction, download, upload, normalize, from_mac}
use ayad_network_manager.Ports.{Call, Read, ask, throw_if, DeviceRepository, DevicePolicyRepository}
use ayad_network_manager.Traffic.{
  TrafficEnforcer, ThrottleRate, is_throttled, is_some, limit_in, limit, limit_bits,
}

-- The services that the reconciliation is given; `sha256` is the digest of node:crypto.
pub record Services (S : Type 0) : Type 0 where
  pub devices : DeviceRepository S
  pub policies : DevicePolicyRepository S
  pub enforcer : TrafficEnforcer S
  pub throttle_rate : ThrottleRate
  pub sha256 : Text → Text

-- `policy.downloadLimit !== null || throttled`, by direction
abbrev pub is_limited : Direction → DevicePolicy → Bool
is_limited direction p = is_some (limit_in direction p) || is_throttled p

unfoldable pub is_enforceable : Device → DevicePolicy → Bool
is_enforceable d p =
    d.identity_validated
    && is_some d.ip
    && (is_some p.download_limit || is_some p.upload_limit || is_throttled p)

module _ {S : Type 0} (env : Services S) where
  open env use {devices, policies, enforcer, throttle_rate, sha256}

  -- The devices with their policies that are to be enforced.
  unfoldable pub enforceable : List Device → Read S (List (Device × DevicePolicy))
  enforceable [] s = ok []
  enforceable (d ∷ ds) s = elim (policies.find_by_device_id (d.id) s) [
    | err e ↦ err e
    | ok policy ↦ elim (enforceable ds s) [
      | err e ↦ err e
      | ok rest ↦ elim policy [
        | none ↦ ok rest
        | some p ↦ if is_enforceable d p then ok ((d, p) ∷ rest) else ok rest
      ]
    ]
  ]

  -- `TcClassId.normalize(TcClassId.fromMac(device.mac.toString(), direction))`
  unfoldable pub class_of : Direction → Device → Text
  class_of direction d = normalize (from_mac sha256 (d.mac.value) direction)

  -- `expectedDownloadClasses` and `expectedUploadClasses`
  unfoldable pub expected : Direction → List (Device × DevicePolicy) → List Text → List Text
  unfolding class_of
  expected direction [] classes = classes
  expected direction ((d, p) ∷ rest) classes =
      expected direction rest
        (if is_limited direction p then add (class_of direction d) classes else classes)

  unfoldable pub limit_direction : Direction → Device → DevicePolicy → Call S (Unit {0})
  limit_direction direction d p =
      if is_throttled p
      then limit_bits enforcer direction d throttle_rate.bits
      else elim (limit_in direction p) [
        | none ↦ pure tt
        | some rate ↦ limit enforcer direction d (pos rate)
      ]

  unfoldable pub limit_device : Device → DevicePolicy → Call S (Unit {0})
  unfolding limit_direction
  limit_device d p = limit_direction download d p >> limit_direction upload d p

  -- `try { await m; } catch (error) { failures.push(wrap(error)); }`
  abbrev pub attempt : Call S (Unit {0}) → (Error → Error) → List Error → Call S (List Error)
  attempt m wrap failures s =
      let (r, t) = m s in
      elim r [ ok done ↦ (ok failures, t) | err e ↦ (ok (failures ++ wrap e ∷ []), t) ]

  unfoldable pub limit_all : List (Device × DevicePolicy) → List Error → Call S (List Error)
  unfolding limit_device
  limit_all [] failures = pure failures
  limit_all ((d, p) ∷ rest) failures =
      attempt (limit_device d p) (traffic_policy_failed d.mac.value) failures >>= limit_all rest

  -- The part of a cycle after `initializeBaseState`.
  unfoldable pub converge : List (Device × DevicePolicy) → Call S (List Error)
  unfolding expected limit_all
  converge targets = do
    throw_if (not throttle_rate.is_valid) invalid_throttle_rate
    limiting ← limit_all targets []
    downloads ←
        attempt (enforcer.reconcile_download_state (expected download targets []))
          stale_download_failed limiting
    attempt (enforcer.reconcile_upload_state (expected upload targets [])) stale_upload_failed
        downloads

  unfoldable pub reconcile_targets : List (Device × DevicePolicy) → Call S (List Error)
  unfolding converge
  reconcile_targets [] = enforcer.clear_base_state >> pure []
  reconcile_targets (target ∷ rest) = enforcer.initialize_base_state >> converge (target ∷ rest)

  unfoldable pub reconcile : Call S (List Error)
  unfolding enforceable reconcile_targets
  reconcile = do
    all_devices ← ask (devices.find_all)
    targets ← ask (enforceable all_devices)
    reconcile_targets targets
