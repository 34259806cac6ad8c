-- ===== src/Traffic/Enforcement.antt =====
-- backend/src/application/enforcement/TrafficEnforcementService.ts, with the validator of
-- backend/src/application/enforcement/DefaultTrafficPolicyValidator.ts. The pairs of methods for
-- download and upload are one function of the direction.
pub mod Rows
pub mod Written
use ayad_network_manager.Base.{
  ℕ, ◌*◌, Bool, true, false, not, ◌||◌, Option, none, some, List, [], ◌∷◌, Text, codes, ◌==◌,
  nat_eq, text_eq, if◌then◌else◌,
}
use ayad_network_manager.Base.Int.{ℤ, pos, pos_part}
use ayad_network_manager.Base.Effects.{ok, err, pure, throw, catch, ◌>>=◌, ◌>>◌}
use ayad_network_manager.Errors.{
  Error, device_not_found, identity_not_validated, invalid_throttle_rate,
}
use ayad_network_manager.Text.{to_lower}
use ayad_network_manager.Domain.MacAddress
use ayad_network_manager.Domain.MacAddress.{MacAddress}
use ayad_network_manager.Domain.IpAddress
use ayad_network_manager.Domain.IpAddress.{IpAddress}
use ayad_network_manager.Domain.Device.{
  Device, DevicePolicy, ValidatedDeviceIdentity, IdentitySource,
}
use ayad_network_manager.Domain.TcClassId.{Direction, download, upload}
use ayad_network_manager.Identity.{reconcile_identity_observation}
use ayad_network_manager.Rate.{validate}
use ayad_network_manager.Ports.{
  Call, Read, ask, lift, or_throw, throw_if, DeviceRepository, DevicePolicyRepository,
  OperationsRepository, Details, success, failure, limited, limit_failed,
}
use ayad_network_manager.Firewall.{resolve_device_identifier, ip_text}
use ayad_network_manager.Traffic.{
  TrafficEnforcer, ThrottleRate, is_some, change_limit, limit, clear,
}

-- What `deviceRepository.upsert` is given.
pub record DeviceData : Type 0 where
  pub mac : MacAddress
  pub ip : IpAddress
  pub hostname : Option Text
  pub l2_visible : Bool
  pub proxy_mac : Option MacAddress
  pub identity_validated : Bool
  pub identity_source : IdentitySource
  pub seen_at : ℕ

-- The services that the enforcement is given. `upsert` is that of the device repository, `discover`
-- that of the discovery service, `uplink` the bandwidth of the validator, `is_ip` that of node:net.
pub record Services (S : Type 0) : Type 0 where
  pub enforcer : TrafficEnforcer S
  pub uplink : ℤ
  pub devices : DeviceRepository S
  pub upsert : DeviceData → Call S Device
  pub policies : DevicePolicyRepository S
  pub throttle_rate : ThrottleRate
  pub operations : Option (OperationsRepository S)
  pub discover : Option (Call S (List ValidatedDeviceIdentity))
  pub is_ip : Text → ℕ

-- `discovered.find((item) => item.mac.toLowerCase() === ...)`
pub find_observed : Text → List ValidatedDeviceIdentity → Option ValidatedDeviceIdentity
find_observed mac [] = none
find_observed mac (o ∷ os) = if to_lower o.mac == to_lower mac then some o else find_observed mac os

abbrev pub set_action : Direction → Text
set_action download = codes "set-download-limit"
set_action upload = codes "set-upload-limit"

abbrev pub clear_action : Direction → Text
clear_action download = codes "clear-download-limit"
clear_action upload = codes "clear-upload-limit"

module _ {S : Type 0} (env : Services S) where
  open env use {enforcer, devices, policies, throttle_rate}

  -- The time in an entry is left out.
  unfoldable pub audit : Text → Device → Details → Call S (Unit {0})
  audit action d details = elim (env.operations) [
    | none ↦ pure tt
    | some repository ↦ repository.audit (record {
      action = action;
      mac = some (d.mac.value);
      device_id = some (d.id);
      actor = none;
      details = details;
    })
  ]

  -- `reconciled.proxyMac ? MacAddress.create(reconciled.proxyMac) : null`
  pub proxy_of : Option Text → Call S (Option MacAddress)
  proxy_of none = pure none
  proxy_of (some []) = pure none
  proxy_of (some (c ∷ s)) = lift (MacAddress.create (c ∷ s)) >>= λ m. pure (some m)

  pub store_observed : ℕ → Device → ValidatedDeviceIdentity → Call S (Option Device)
  unfolding proxy_of
  store_observed now current observed =
      let reconciled = reconcile_identity_observation (some current) observed in
      (do
        mac ← lift (MacAddress.create reconciled.mac)
        ip ← lift (IpAddress.create env.is_ip reconciled.ip)
        proxy ← proxy_of reconciled.proxy_mac
        stored ← env.upsert (record {
          mac = mac;
          ip = ip;
          hostname = reconciled.hostname;
          l2_visible = reconciled.l2_visible;
          proxy_mac = proxy;
          identity_validated = reconciled.identity_validated;
          identity_source = reconciled.identity_source;
          seen_at = now;
        })
        pure (some stored))

  pub refresh : ℕ → Option Device → Call S (Option Device)
  unfolding store_observed
  refresh now none = pure none
  refresh now (some current) = elim (env.discover) [
    | none ↦ pure (some current)
    | some discover ↦ discover >>= λ discovered. elim (find_observed current.mac.value discovered) [
      | none ↦ pure (some current)
      | some observed ↦ store_observed now current observed
    ]
  ]

  unfoldable pub resolve_fresh_device : ℕ → Text → Call S (Option Device)
  unfolding refresh
  resolve_fresh_device now identifier =
      ask (resolve_device_identifier devices identifier) >>= refresh now

  -- `trafficPolicyValidator.validate(device, { rateMbps })`
  abbrev pub check_rate : Device → ℤ → Call S (Unit {0})
  check_rate d rate = lift (validate env.uplink d.mac.value (ip_text d) rate)

  abbrev pub audit_throw : Text → Device → (Error → Details) → Error → Call S (Unit {0})
  audit_throw action d details e = audit action d (details e) >> throw e

  -- `limitDownload` and `limitUpload` after their guards; a rate that passed them is above zero.
  unfoldable pub limit_known : Direction → Device → ℤ → Call S (Unit {0})
  unfolding audit
  limit_known direction d rate =
      catch
        (do
          policies.upsert d.id (change_limit direction (some (pos_part rate)))
          limit enforcer direction d rate
          audit (set_action direction) d (limited (pos_part rate)))
        (audit_throw (set_action direction) d failure)

  unfoldable pub set_limit : Direction → ℕ → Text → ℤ → Call S (Unit {0})
  unfolding resolve_fresh_device limit_known
  set_limit direction now mac rate = do
    found ← resolve_fresh_device now mac
    d ← or_throw found (device_not_found mac)
    throw_if (not d.identity_validated) (identity_not_validated mac)
    check_rate d rate
    limit_known direction d rate

  unfoldable pub limit_download : ℕ → Text → ℤ → Call S (Unit {0})
  unfolding set_limit
  limit_download = set_limit download

  unfoldable pub limit_upload : ℕ → Text → ℤ → Call S (Unit {0})
  unfolding set_limit
  limit_upload = set_limit upload

  -- Whether a policy of these devices has a limit.
  unfoldable pub any_limited : List Device → Read S Bool
  any_limited [] s = ok false
  any_limited (d ∷ ds) s = elim (policies.find_by_device_id (d.id) s) [
    | err e ↦ err e
    | ok none ↦ any_limited ds s
    | ok (some p) ↦
        let rest = any_limited ds s in
        if is_some p.download_limit || is_some p.upload_limit then ok true else rest
  ]

  unfoldable pub clear_base_state_when_unused : Call S (Unit {0})
  unfolding any_limited
  clear_base_state_when_unused = do
    all_devices ← ask (devices.find_all)
    used ← ask (any_limited all_devices)
    if used then pure tt else enforcer.clear_base_state

  unfoldable pub clear_known : Direction → Device → Call S (Unit {0})
  unfolding audit clear_base_state_when_unused
  clear_known direction d =
      catch
        (do
          policies.upsert d.id (change_limit direction none)
          clear enforcer direction d
          clear_base_state_when_unused
          audit (clear_action direction) d success)
        (audit_throw (clear_action direction) d failure)

  unfoldable pub clear_limit : Direction → Text → Call S (Unit {0})
  unfolding clear_known
  clear_limit direction mac = do
    found ← ask (resolve_device_identifier devices mac)
    d ← or_throw found (device_not_found mac)
    clear_known direction d

  unfoldable pub clear_download : Text → Call S (Unit {0})
  unfolding clear_limit
  clear_download = clear_limit download

  unfoldable pub clear_upload : Text → Call S (Unit {0})
  unfolding clear_limit
  clear_upload = clear_limit upload

  throttle_known : Device → Call S (Unit {0})
  unfolding audit
  throttle_known d =
      let rate = throttle_rate.milli_megabits in
      catch
        (do
          enforcer.limit_download_bits d (rate * 1000)
          enforcer.limit_upload_bits d (rate * 1000)
          audit (codes "apply-quota-throttle") d (limited rate))
        (audit_throw (codes "apply-quota-throttle") d (limit_failed rate))

  unfoldable pub apply_quota_throttle : ℕ → Text → Call S (Unit {0})
  unfolding resolve_fresh_device throttle_known
  apply_quota_throttle now mac = do
    found ← resolve_fresh_device now mac
    d ← or_throw found (device_not_found mac)
    throw_if (not d.identity_validated) (identity_not_validated mac)
    throw_if (not throttle_rate.is_valid) invalid_throttle_rate
    check_rate d (pos throttle_rate.milli_megabits)
    throttle_known d

  -- One direction of `clearQuotaThrottle`: the policy's own limit again, or none.
  restore_limit : Direction → Device → Option ℕ → Call S (Unit {0})
  restore_limit direction d none = clear enforcer direction d
  restore_limit direction d (some rate) =
      check_rate d (pos rate) >> limit enforcer direction d (pos rate)

  restore_limits : Device → Option DevicePolicy → Call S (Unit {0})
  unfolding restore_limit
  restore_limits d none = enforcer.clear_download d >> enforcer.clear_upload d
  restore_limits d (some p) =
      restore_limit download d p.download_limit >> restore_limit upload d p.upload_limit

  unfoldable pub clear_quota_throttle : ℕ → Text → Call S (Unit {0})
  unfolding resolve_fresh_device restore_limits audit
  clear_quota_throttle now mac = do
    found ← resolve_fresh_device now mac
    d ← or_throw found (device_not_found mac)
    catch
        (do
          policy ← ask (policies.find_by_device_id d.id)
          restore_limits d policy
          audit (codes "clear-quota-throttle") d success)
        (audit_throw (codes "clear-quota-throttle") d failure)
