-- ===== src/Bindings/Lifecycle.antt =====
-- backend/src/application/enforcement/IpBindingLifecycleService.ts. The runs of the service take
-- turns by the lock, so one run meets no other.
use ayad_network_manager.Base.{
  ℕ, Bool, not, ◌&&◌, Option, none, some, List, [], ◌∷◌, ◌++◌, Text, codes, ◌==◌, nat_eq, text_eq,
  if◌then◌else◌, any,
}
use ayad_network_manager.Base.Map.{lookup}
use ayad_network_manager.Base.Effects.{pure, catch, ◌>>=◌, ◌>>◌, for_each}
use ayad_network_manager.Errors.{ip_blocking_unavailable, ip_unblocking_unavailable}
use ayad_network_manager.Text.{trim, to_lower}
use ayad_network_manager.Text.Numerals.{to_decimal}
use ayad_network_manager.Domain.Device.{Device}
use ayad_network_manager.Ports.{
  Call, Read, ask, or_throw, call_if, DeviceRepository, DevicePolicyRepository,
  BlockedDeviceRepository, DeviceBlocker, Binding,
}
use ayad_network_manager.Firewall.{is_blocked}
use ayad_network_manager.Bindings.{DhcpLease, is_lease_active, map_of, devices_by_id}

-- The services that the lifecycle is given; `read_leases` is the DHCP lease reader.
pub record Services (S : Type 0) : Type 0 where
  pub devices : DeviceRepository S
  pub policies : DevicePolicyRepository S
  pub read_leases : Read S (List DhcpLease)
  pub blocked_devices : BlockedDeviceRepository S
  pub blocker : DeviceBlocker S

unfoldable pub active_leases : ℕ → List DhcpLease → List DhcpLease
active_leases now [] = []
active_leases now (lease ∷ leases) =
    let rest = active_leases now leases in if is_lease_active now lease then lease ∷ rest else rest

abbrev pub lease_mac : DhcpLease → Text
lease_mac lease = to_lower (trim lease.mac)

abbrev pub lease_ip : DhcpLease → Text
lease_ip lease = trim lease.ip

-- What a run knows: the devices by id, the address of each lease by hardware address, and back.
pub record Evidence : Type 0 where
  pub device_by_id : List (ℕ × Device)
  pub lease_ip_by_mac : List (Text × Text)
  pub lease_mac_by_ip : List (Text × Text)

unfoldable pub evidence : ℕ → List Device → List DhcpLease → Evidence
unfolding active_leases
evidence now devices leases =
    let live = active_leases now leases in
    record {
      device_by_id = devices_by_id devices [];
      lease_ip_by_mac = map_of lease_mac lease_ip live [];
      lease_mac_by_ip = map_of lease_ip lease_mac live [];
    }

-- `claimantMac && claimantMac !== deviceMac`, and likewise `currentIp && currentIp !== bindingIp`:
-- another text than `own`, if there is one.
unfoldable pub other_than : Text → Option Text → Option Text
other_than own none = none
other_than own (some []) = none
other_than own (some (c ∷ s)) = if c ∷ s == own then none else some (c ∷ s)

-- `remainingBindings.some((candidate) => candidate.ip === bindingIp)`
abbrev pub still_bound : Text → List Binding → Bool
still_bound ip bindings = any (λ b. b.ip == ip) bindings

module _ {S : Type 0} (env : Services S) where
  open env use {devices, policies, read_leases, blocked_devices, blocker}

  -- `await this.blockedDeviceRepository.releaseIp?.(id, ip, reason)`
  unfoldable pub release_ip : ℕ → Text → Text → Call S (Unit {0})
  release_ip id ip reason = elim (blocked_devices.release_ip) [
    | none ↦ pure tt
    | some release ↦ release id ip reason
  ]

  -- The kernel's block goes when no active binding has the address.
  unfoldable pub unblock_unbound : Text → Call S (Unit {0})
  unblock_unbound ip = ask (blocked_devices.active_bindings) >>= λ remaining.
      if still_bound ip remaining then pure tt else call_if blocker.unblock_ip ip

  -- Case 1: another client has the address.
  unfoldable pub give_up : Device → Text → Text → Call S (Unit {0})
  unfolding release_ip unblock_unbound
  give_up d ip claimant =
      release_ip d.id ip (codes "ip_reassigned_to_other_mac:" ++ claimant) >> unblock_unbound ip

  -- Case 2: the device has another address.
  unfoldable pub follow : Device → Text → Text → Call S (Unit {0})
  unfolding release_ip unblock_unbound
  follow d ip current = do
    block_ip ← or_throw blocker.block_ip ip_blocking_unavailable
    unblock_ip ← or_throw blocker.unblock_ip ip_unblocking_unavailable
    block_ip current
    blocked_devices.record_block d.id none (some current) (some (codes "ip-enforced-proxy"))
    release_ip d.id ip (codes "device " ++ (to_decimal d.id ++ (codes " moved to " ++ current)))
    unblock_unbound ip

  -- A binding of a device that is blocked behind a proxy.
  unfoldable pub settle : Evidence → Device → Text → Call S (Unit {0})
  unfolding give_up follow other_than
  settle known d ip =
      let mac = to_lower d.mac.value in
      elim (other_than mac (lookup ip known.lease_mac_by_ip)) [
        | some claimant ↦ give_up d ip claimant
        | none ↦ elim (other_than ip (lookup mac known.lease_ip_by_mac)) [
          | none ↦ pure tt
          | some current ↦ follow d ip current
        ]
      ]

  unfoldable pub check_binding : Evidence → Binding → Call S (Unit {0})
  unfolding settle
  check_binding known binding = elim (lookup binding.device_id known.device_by_id) [
    | none ↦ pure tt
    | some d ↦ ask (policies.find_by_device_id d.id) >>= λ policy.
        if is_blocked policy && d.identity_validated && not d.l2_visible
        then settle known d binding.ip
        else pure tt
  ]

  unfoldable pub check_bindings : ℕ → Call S (Unit {0})
  unfolding check_binding evidence
  check_bindings now = do
    all_devices ← ask (devices.find_all)
    leases ← ask read_leases
    bindings ← ask (blocked_devices.active_bindings)
    for_each bindings (check_binding (evidence now all_devices leases))

  -- A run, at a time in seconds; an error ends it and is logged.
  unfoldable pub reconcile : ℕ → Call S (Unit {0})
  unfolding check_bindings
  reconcile now = catch (check_bindings now) (λ e. pure tt)
