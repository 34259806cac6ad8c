-- ===== src/Firewall.antt =====
-- backend/src/application/enforcement/FirewallService.ts and
-- backend/src/application/devices/DeviceIdentifierResolver.ts.
pub mod Kernel
pub mod Desired
pub mod Stores
pub mod PolicyKept
pub mod Guards
pub mod Returns
pub mod Memory
mod Tests
pub mod Reconcile
use ayad_network_manager.Base.{
  ℕ, ◌^◌, Bool, true, false, not, ◌&&◌, Option, none, some, List, [], ◌∷◌, Text, codes, all, ltb,
  ◌==◌, nat_eq, text_eq, if◌then◌else◌,
}
use ayad_network_manager.Base.Map.{has, add}
use ayad_network_manager.Base.Effects.{ok, err, pure, throw, catch, ◌>>=◌, ◌>>◌, for_each}
use ayad_network_manager.Errors.{
  device_not_found, identity_not_validated, refusing_proxy_mac, not_unconfirmed,
  acknowledgment_missing, refusing_requester, no_ip_enforcement, pending_enforcement,
}
use ayad_network_manager.Text.{is_digit, to_lower, trim}
use ayad_network_manager.Text.Numerals.{read}
use ayad_network_manager.Domain.MacAddress
use ayad_network_manager.Domain.MacAddress.{MacAddress, is_mac}
use ayad_network_manager.Domain.Device.{
  Device, DevicePolicy, IdentitySource, proxy_unconfirmed, proxy_accepted_by_admin,
}
use ayad_network_manager.Ports.{
  Call, Read, ask, lift, or_throw, throw_if, call_if, DeviceRepository, DevicePolicyRepository,
  DeviceBlocker, BlockedDeviceRepository, OperationsRepository, AuditEntry, Details, success,
  pending, acknowledged, no_change, DeviceChange,
}

-- `/^[1-9]\d*$/.test`
unfoldable pub is_resource_id : Text → Bool
is_resource_id [] = false
is_resource_id (c ∷ s) = is_digit c && not (c == b'0') && all is_digit s

abbrev pub find_by_mac_text : {S : Type 0} → DeviceRepository S → Text → Read S (Option Device)
find_by_mac_text repository identifier s = elim (MacAddress.create identifier) [
  | ok mac ↦ repository.find_by_mac mac s
  | err e ↦ err e
]

-- `resolveDeviceIdentifier`; an id past the safe integers is read as an address.
unfoldable pub resolve_device_identifier :
    {S : Type 0} → DeviceRepository S → Text → Read S (Option Device)
resolve_device_identifier repository identifier =
    if is_resource_id identifier && ltb (read 10 identifier) (2 ^ 53)
    then repository.find_by_id (read 10 identifier)
    else find_by_mac_text repository identifier

abbrev pub is_unconfirmed : IdentitySource → Bool
is_unconfirmed proxy_unconfirmed = true
is_unconfirmed _ = false

abbrev pub is_accepted : IdentitySource → Bool
is_accepted proxy_accepted_by_admin = true
is_accepted _ = false

abbrev pub ip_text : Device → Option Text
ip_text d = elim (d.ip) [ none ↦ none | some ip ↦ some (ip.value) ]

-- `policy?.blocked`
abbrev pub is_blocked : Option DevicePolicy → Bool
is_blocked none = false
is_blocked (some p) = p.blocked

-- The proxy addresses of the known devices, in lower case.
pub proxy_macs : List Device → List Text
proxy_macs [] = []
proxy_macs (d ∷ ds) = elim (d.proxy_mac) [
  | none ↦ proxy_macs ds
  | some m ↦ add (to_lower (m.value)) (proxy_macs ds)
]

pub is_proxy_request : Text → List Device → Bool
is_proxy_request mac devices = is_mac mac && has (to_lower (trim mac)) (proxy_macs devices)

-- `requesterIp && device.ip?.toString() === requesterIp`
pub is_requester : Device → Option Text → Bool
is_requester d none = false
is_requester d (some []) = false
is_requester d (some (c ∷ s)) = elim (d.ip) [ none ↦ false | some ip ↦ ip.value == c ∷ s ]

-- `static readonly UNCONFIRMED_IDENTITY_ACKNOWLEDGMENT`
unfoldable pub unconfirmed_identity_acknowledgment : Text
unconfirmed_identity_acknowledgment =
    codes
      "This device's identity is asserted by its DHCP lease only and has not been independently confirmed, because the access point it connects through does not expose its real hardware address. Enforcement will follow this device's current IP address only. If its IP changes unexpectedly before the system observes the change, enforcement may briefly lag behind."

-- The services that the firewall is given. `admin` is the configured name of the administrator.
pub record Collaborators (S : Type 0) : Type 0 where
  pub blocker : DeviceBlocker S
  pub devices : DeviceRepository S
  pub policies : DevicePolicyRepository S
  pub operations : Option (OperationsRepository S)
  pub blocked_devices : Option (BlockedDeviceRepository S)
  pub admin : Text

module _ {S : Type 0} (env : Collaborators S) where
  open env use {blocker, devices, policies, admin}

  -- `operationsRepository?.audit(entry)`
  pub audited : AuditEntry → Call S (Unit {0})
  audited entry = elim (env.operations) [
    | none ↦ pure tt
    | some repository ↦ repository.audit entry
  ]

  -- The time in an entry is left out.
  audit : Text → Device → Text → Details → Call S (Unit {0})
  unfolding audited
  audit action d actor details = audited (record {
    action = action;
    mac = some (d.mac.value);
    device_id = some (d.id);
    actor = some actor;
    details = details;
  })

  pub record_block : ℕ → Option Text → Option Text → Text → Call S (Unit {0})
  record_block id mac ip reason = elim (env.blocked_devices) [
    | none ↦ pure tt
    | some repository ↦ repository.record_block id mac ip (some reason)
  ]

  pub release_block : ℕ → Call S (Unit {0})
  release_block id = elim (env.blocked_devices) [
    | none ↦ pure tt
    | some repository ↦ repository.release_block id
  ]

  active_ips : ℕ → Read S (List Text)
  active_ips id s = elim (env.blocked_devices) [
    | none ↦ ok []
    | some repository ↦ repository.active_ips id s
  ]

  pub resolve : Text → Call S Device
  resolve mac = do
    found ← ask (resolve_device_identifier devices mac)
    or_throw found (device_not_found mac)

  abbrev accepted : DeviceChange
  accepted = record {
    l2_visible = some false;
    identity_validated = some true;
    identity_source = some proxy_accepted_by_admin;
  }

  unfoldable pub accept_unconfirmed_identity : Text → Text → Call S (Unit {0})
  unfolding resolve audit
  accept_unconfirmed_identity mac acknowledgment = do
    d ← resolve mac
    throw_if (not (is_unconfirmed d.identity_source)) not_unconfirmed
    throw_if (not (acknowledgment == unconfirmed_identity_acknowledgment)) acknowledgment_missing
    devices.update d.id accepted
    audit (codes "accept-unconfirmed-identity") d admin (acknowledged acknowledgment)

  -- The addresses to block: hardware addresses, and IP addresses of devices behind a proxy.
  pub want : Device → Option DevicePolicy → List Text × List Text → List Text × List Text
  want d policy (macs, ips) =
      if is_blocked policy && d.identity_validated
      then if d.l2_visible
        then (add d.mac.value macs, ips)
        else elim (d.ip) [ none ↦ (macs, ips) | some ip ↦ (macs, add (ip.value) ips) ]
      else (macs, ips)

  pub desired : List Device → List Text × List Text → Read S (List Text × List Text)
  desired [] sets s = ok sets
  desired (d ∷ ds) sets s = elim (policies.find_by_device_id (d.id) s) [
    | err e ↦ err e
    | ok policy ↦ desired ds (want d policy sets) s
  ]

  block_text : Text → Call S (Unit {0})
  block_text mac = do m ← lift (MacAddress.create mac); blocker.block m none

  unblock_unless : List Text → Text → Call S (Unit {0})
  unblock_unless keep mac =
      if has mac keep
      then pure tt
      else (lift (MacAddress.create mac) >>= λ m. blocker.unblock m none)

  unblock_ip_unless : List Text → Text → Call S (Unit {0})
  unblock_ip_unless keep ip = if has ip keep then pure tt else call_if blocker.unblock_ip ip

  pub blocked_macs : Read S (List Text)
  blocked_macs s = elim (blocker.get_blocked_macs) [ none ↦ ok [] | some r ↦ r s ]

  pub blocked_ips : Read S (List Text)
  blocked_ips s = elim (blocker.get_blocked_ips) [ none ↦ ok [] | some r ↦ r s ]

  -- `for (const x of await existing()) await body(x);`
  abbrev pub for_existing : Read S (List Text) → (Text → Call S (Unit {0})) → Call S (Unit {0})
  for_existing existing body = ask existing >>= λ found. for_each found body

  -- The writes of `reconcile`: add what is asked for, then remove what is not.
  install : List Text × List Text → Call S (Unit {0})
  unfolding block_text unblock_unless unblock_ip_unless blocked_macs blocked_ips
  install (macs, ips) =
      for_each macs block_text
      >> (for_each ips (call_if blocker.block_ip)
          >> (for_existing blocked_macs (unblock_unless macs)
              >> for_existing blocked_ips (unblock_ip_unless ips)))

  unfoldable pub reconcile : Call S (Unit {0})
  unfolding install
  reconcile = do
    all_devices ← ask (devices.find_all)
    sets ← ask (desired all_devices ([], []))
    install sets

  -- The kernel's part of a block: by IP address behind a proxy, and else by hardware address.
  pub enforce_block : Device → Call S (Unit {0})
  enforce_block d =
      if d.l2_visible
      then blocker.block d.mac none
      else (or_throw (ip_text d) no_ip_enforcement >>= λ ip.
          or_throw blocker.block_ip no_ip_enforcement >>= λ block_ip. block_ip ip)

  -- `blockDevice` after its guards.
  pub block_known : Device → Call S (Unit {0})
  unfolding audit record_block enforce_block
  block_known d = do
    policies.upsert d.id (record no_change { blocked = some true })
    catch
        (do
          enforce_block d
          record_block d.id (if is_accepted d.identity_source then none else some d.mac.value)
              (ip_text d) (if d.l2_visible then codes "mac-enforced" else codes "ip-enforced-proxy")
          audit (codes "block-device") d admin success)
        (λ e.
          audit (codes "block-device") d admin (pending e true)
          >> throw (pending_enforcement d.id true e))

  -- The guards of `blockDevice`, in their order.
  pub check_block : Text → Option Text → Device → Call S (Unit {0})
  check_block mac requester_ip d = do
    throw_if (not d.identity_validated) (identity_not_validated mac)
    all_devices ← ask (devices.find_all)
    throw_if (is_proxy_request mac all_devices) (refusing_proxy_mac mac)
    throw_if (is_requester d requester_ip) refusing_requester

  unfoldable pub block_device : Text → Option Text → Call S (Unit {0})
  block_device mac requester_ip =
      resolve mac >>= λ d. check_block mac requester_ip d >> block_known d

  pub enforce_unblock : Device → Call S (Unit {0})
  unfolding active_ips
  enforce_unblock d =
      if d.l2_visible
      then blocker.unblock d.mac (ip_text d)
      else (ask (active_ips d.id) >>= λ ips. for_each ips (call_if blocker.unblock_ip))

  pub unblock_known : Device → Call S (Unit {0})
  unfolding enforce_unblock release_block audit
  unblock_known d = do
    policies.upsert d.id (record no_change { blocked = some false })
    catch (do enforce_unblock d; release_block d.id; audit (codes "unblock-device") d admin success)
        (λ e.
          audit (codes "unblock-device") d admin (pending e true)
          >> throw (pending_enforcement d.id false e))

  pub unblock_found : Text → Option Device → Call S (Unit {0})
  unblock_found mac none = lift (MacAddress.create mac) >>= λ m. blocker.unblock m none
  unblock_found mac (some d) = unblock_known d

  unfoldable pub unblock_device : Text → Call S (Unit {0})
  unfolding unblock_found
  unblock_device mac = ask (resolve_device_identifier devices mac) >>= unblock_found mac

  -- `blockForQuota` after its guards.
  pub quota_block : Device → Call S (Unit {0})
  unfolding audit record_block enforce_block
  quota_block d =
      catch
        (do
          enforce_block d
          record_block d.id (if d.l2_visible then some d.mac.value else none) (ip_text d)
              (if d.l2_visible then codes "quota-mac-enforced" else codes "quota-ip-enforced-proxy")
          audit (codes "quota-block-device") d (codes "system") success)
        (λ e. audit (codes "quota-block-device") d (codes "system") (pending e false) >> throw e)

  unfoldable pub block_for_quota : Text → Call S (Unit {0})
  unfolding resolve
  block_for_quota mac = do
    d ← resolve mac
    throw_if (not d.identity_validated) (identity_not_validated mac)
    quota_block d

  -- `if (activeIps.length === 0 && device.ip && unblockIp) await unblockIp(device.ip.toString());`
  unblock_own_ip : Device → List Text → Call S (Unit {0})
  unblock_own_ip d [] = elim (ip_text d) [
    | none ↦ pure tt
    | some ip ↦ call_if (blocker.unblock_ip) ip
  ]
  unblock_own_ip d (_ ∷ _) = pure tt

  quota_unblock : Device → Call S (Unit {0})
  unfolding active_ips unblock_own_ip
  quota_unblock d =
      if d.l2_visible
      then blocker.unblock d.mac (ip_text d)
      else (ask (active_ips d.id) >>= λ ips.
          for_each ips (call_if blocker.unblock_ip) >> unblock_own_ip d ips)

  pub quota_release : Device → Call S (Unit {0})
  unfolding quota_unblock release_block audit
  quota_release d = do
    quota_unblock d
    release_block d.id
    audit (codes "quota-unblock-device") d (codes "system") success

  unfoldable pub unblock_for_quota : Text → Call S (Unit {0})
  unfolding resolve
  unblock_for_quota mac = do
    d ← resolve mac
    policy ← ask (policies.find_by_device_id d.id)
    if is_blocked policy then pure tt else quota_release d
