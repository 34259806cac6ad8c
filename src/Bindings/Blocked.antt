-- ===== src/Bindings/Blocked.antt =====
-- backend/src/application/enforcement/BlockedIpReconciliationService.ts. The map of addresses by
-- hardware address that it makes of the neighbours, and reads nowhere, is left out.
use ayad_network_manager.Base.{
  ℕ, Bool, true, false, not, ◌&&◌, ◌||◌, Option, none, some, List, [], ◌∷◌, ◌++◌, Text, codes, ◌==◌,
  nat_eq, text_eq, if◌then◌else◌, any,
}
use ayad_network_manager.Base.Map.{lookup, insert, has, add}
use ayad_network_manager.Base.Effects.{ok, err, pure, catch, ◌>>=◌, ◌>>◌, for_each}
use ayad_network_manager.Errors.{ip_blocking_unavailable, enforcement_adapter_missing}
use ayad_network_manager.Text.{trim, to_lower, to_upper}
use ayad_network_manager.Text.Numerals.{to_decimal}
use ayad_network_manager.Domain.Device.{Device, DevicePolicy}
use ayad_network_manager.Ports.{
  Call, Read, ask, or_throw, DeviceRepository, DevicePolicyRepository, BlockedDeviceRepository,
  DeviceBlocker, Binding,
}
use ayad_network_manager.Firewall.{is_blocked, is_unconfirmed, is_accepted}
use ayad_network_manager.Bindings.{DhcpLease, is_lease_active, devices_by_id}

pub record NeighborEntry : Type 0 where
  pub ip : Text
  pub mac : Text
  pub state : Text

-- What the service reads of a captured identity.
pub record CapturedIdentity : Type 0 where
  pub mac : Text
  pub source_ip : Option Text

-- The services that it is given; `neighbors` is the read of the LAN's table, and `captures` the
-- recent identities of the capture reader.
pub record Services (S : Type 0) : Type 0 where
  pub devices : DeviceRepository S
  pub policies : DevicePolicyRepository S
  pub read_leases : Read S (List DhcpLease)
  pub neighbors : Read S (List NeighborEntry)
  pub captures : Option (S → List CapturedIdentity)
  pub blocked_devices : Option (BlockedDeviceRepository S)
  pub blocker : Option (DeviceBlocker S)

abbrev pub normalize_mac : Text → Text
normalize_mac mac = to_lower (trim mac)

abbrev pub normalize_ip : Text → Text
normalize_ip ip = trim ip

unfoldable pub is_usable_neighbor_state : Text → Bool
is_usable_neighbor_state state =
    let s = to_upper (trim state) in
    s == codes "REACHABLE" || s == codes "STALE" || s == codes "PERMANENT"

-- `if (!mac || !ip) continue;`
abbrev pub is_blank : Text → Text → Bool
is_blank mac ip = mac == [] || ip == []

-- `activeLeaseByMac` and `activeDhcpMacByIp`
unfoldable pub read_leases_of :
    ℕ
    → List DhcpLease
    → List (Text × Text) × List (Text × Text)
    → List (Text × Text) × List (Text × Text)
read_leases_of now [] maps = maps
read_leases_of now (lease ∷ leases) (by_mac, by_ip) =
    let mac = normalize_mac lease.mac in
    let ip = normalize_ip lease.ip in
    read_leases_of now leases (
      if is_lease_active now lease && not (is_blank mac ip)
      then (insert mac ip by_mac, insert ip mac by_ip)
      else (by_mac, by_ip))

-- `neighborMacByIp`
unfoldable pub read_neighbors : List NeighborEntry → List (Text × Text) → List (Text × Text)
read_neighbors [] by_ip = by_ip
read_neighbors (n ∷ ns) by_ip =
    let mac = normalize_mac n.mac in
    let ip = normalize_ip n.ip in
    read_neighbors ns (
      if is_usable_neighbor_state n.state && not (is_blank mac ip)
      then insert ip mac by_ip
      else by_ip)

-- `new Map(bindings.map((binding) => [binding.ip, binding]))`
unfoldable pub bindings_by_ip : List Binding → List (Text × Binding) → List (Text × Binding)
bindings_by_ip [] entries = entries
bindings_by_ip (b ∷ bs) entries = bindings_by_ip bs (insert (b.ip) b entries)

-- What a run knows.
pub record Evidence : Type 0 where
  pub device_by_id : List (ℕ × Device)
  pub lease_ip_by_mac : List (Text × Text)
  pub lease_mac_by_ip : List (Text × Text)
  pub neighbor_mac_by_ip : List (Text × Text)
  pub binding_by_ip : List (Text × Binding)

unfoldable pub evidence :
    ℕ → List Device → List DhcpLease → List NeighborEntry → List Binding → Evidence
unfolding read_leases_of
evidence now devices leases neighbors bindings =
    let (by_mac, by_ip) = read_leases_of now leases ([], []) in
    record {
      device_by_id = devices_by_id devices [];
      lease_ip_by_mac = by_mac;
      lease_mac_by_ip = by_ip;
      neighbor_mac_by_ip = read_neighbors neighbors [];
      binding_by_ip = bindings_by_ip bindings [];
    }

-- A text in a condition: a missing one and "" are false.
abbrev pub non_empty : Option Text → Option Text
non_empty none = none
non_empty (some []) = none
non_empty (some (c ∷ s)) = some (c ∷ s)

-- `captureConfirms`, of the captures at hand
unfoldable pub capture_confirms : Text → Text → List CapturedIdentity → Bool
capture_confirms mac ip captures =
    any
      (λ c.
        normalize_mac c.mac == mac
        && elim (c.source_ip) [ none ↦ true | some s ↦ normalize_ip s == ip ])
      captures

-- `persistedProxyConfirms`
unfoldable pub proxy_confirms : Device → Option Text → Bool
proxy_confirms d owner = elim (d.proxy_mac) [
  | none ↦ false
  | some m ↦ normalize_mac m.value == normalize_mac (elim owner [ none ↦ [] | some o ↦ o ])
]

abbrev pub is_owner : Text → Option Text → Bool
is_owner mac none = false
is_owner mac (some owner) = owner == mac

-- The address to block for a device: that of its lease, if somebody confirms it.
unfoldable pub confirmed_ip : Evidence → List CapturedIdentity → Device → Option Text
unfolding capture_confirms proxy_confirms
confirmed_ip known captures d =
    let mac = normalize_mac d.mac.value in
    elim (non_empty (lookup mac known.lease_ip_by_mac)) [
      | none ↦ none
      | some ip ↦
          let owner = lookup ip known.neighbor_mac_by_ip in
          if is_owner mac owner || capture_confirms mac ip captures || proxy_confirms d owner
          then some ip
          else none
    ]

-- The expected addresses, and the device of each.
abbrev pub Expected : Type 0
Expected = List Text × List (Text × Device)

unfoldable pub expect :
    Evidence → List CapturedIdentity → Device → Option DevicePolicy → Expected → Expected
unfolding confirmed_ip
expect known captures d policy (ips, devices) =
    if is_blocked policy
      && d.identity_validated
      && not (is_unconfirmed d.identity_source)
      && not d.l2_visible
    then elim (confirmed_ip known captures d) [
      | none ↦ (ips, devices)
      | some ip ↦ (add ip ips, insert ip d devices)
    ]
    else (ips, devices)

-- The device that the address is bound to.
unfoldable pub bound_device : Evidence → Text → Option Device
bound_device known ip = elim (lookup ip known.binding_by_ip) [
  | none ↦ none
  | some b ↦ lookup b.device_id known.device_by_id
]

-- Where DHCP says that the bound device is now, if not at the address.
unfoldable pub moved_to : Evidence → Text → Option Device → Option Text
moved_to known ip none = none
moved_to known ip (some d) =
    elim (non_empty (lookup (normalize_mac d.mac.value) known.lease_ip_by_mac)) [
      | none ↦ none
      | some current ↦ if current == ip then none else some current
    ]

-- Who has the address by DHCP, if that is not the bound device.
unfoldable pub reassigned_to : Evidence → Text → Option Device → Option Text
reassigned_to known ip bound = elim (non_empty (lookup ip known.lease_mac_by_ip)) [
  | none ↦ none
  | some owner ↦ elim bound [
    | none ↦ some owner
    | some d ↦ if owner == normalize_mac d.mac.value then none else some owner
  ]
]

abbrev pub device_id_of : Option Binding → Option ℕ
device_id_of none = none
device_id_of (some b) = some (b.device_id)

module _ {S : Type 0} (env : Services S) where
  open env use {devices, policies, read_leases, neighbors}

  unfoldable pub captures_at : S → List CapturedIdentity
  captures_at s = elim (env.captures) [ none ↦ [] | some recent ↦ recent s ]

  unfoldable pub expected : Evidence → List Device → Expected → Read S Expected
  unfolding expect captures_at
  expected known [] found s = ok found
  expected known (d ∷ ds) found s = elim (policies.find_by_device_id (d.id) s) [
    | err e ↦ err e
    | ok policy ↦ expected known ds (expect known (captures_at s) d policy found) s
  ]

  unfoldable pub active_bindings : Read S (List Binding)
  active_bindings s = elim (env.blocked_devices) [
    | none ↦ ok []
    | some repository ↦ repository.active_bindings s
  ]

  -- `blockedDeviceRepository?.releaseIp?.(deviceId, ip, reason)`
  unfoldable pub forget_binding : ℕ → Text → Text → Call S (Unit {0})
  forget_binding id ip reason = elim (env.blocked_devices) [
    | none ↦ pure tt
    | some repository ↦ elim (repository.release_ip) [
      | none ↦ pure tt
      | some release ↦ release id ip reason
    ]
  ]

  -- `releaseIp`; a blocker without `unblockIp` makes the call throw.
  unfoldable pub release_ip : DeviceBlocker S → Text → Text → Option ℕ → Call S (Unit {0})
  unfolding forget_binding
  release_ip blocker ip reason id = do
    unblock_ip ← or_throw blocker.unblock_ip enforcement_adapter_missing
    unblock_ip ip
    elim id [ none ↦ pure tt | some device_id ↦ forget_binding device_id ip reason ]

  -- One round over the addresses that the kernel blocks.
  unfoldable pub release_stale : DeviceBlocker S → Evidence → List Text → Text → Call S (Unit {0})
  unfolding release_ip bound_device moved_to reassigned_to
  release_stale blocker known keep ip =
      let d = bound_device known ip in
      if has ip keep then pure tt else elim (moved_to known ip d) [
        | some current ↦
            release_ip blocker ip
              (codes "device "
                ++ (elim d as (λ _. Text) [ none ↦ [] | some e ↦ to_decimal e.id ]
                    ++ (codes " moved to " ++ current)))
              (elim d as (λ _. Option ℕ) [ none ↦ none | some e ↦ some e.id ])
        | none ↦ elim (reassigned_to known ip d) [
          | none ↦ pure tt
          | some owner ↦
              release_ip blocker ip (codes "DHCP reassigned to " ++ owner)
                (device_id_of (lookup ip known.binding_by_ip))
        ]
      ]

  unfoldable pub record_block : Device → Text → Call S (Unit {0})
  record_block d ip = elim (env.blocked_devices) [
    | none ↦ pure tt
    | some repository ↦
        repository.record_block d.id
          (if is_accepted d.identity_source then none else some d.mac.value) (some ip)
          (some (codes "ip-enforced-proxy"))
  ]

  -- One round over the expected addresses.
  unfoldable pub install_expected :
      DeviceBlocker S → List (Text × Device) → List Text → Text → Call S (Unit {0})
  unfolding record_block
  install_expected blocker device_of current ip = if has ip current then pure tt else (do
    block_ip ← or_throw blocker.block_ip ip_blocking_unavailable
    block_ip ip
    elim (lookup ip device_of) [ none ↦ pure tt | some d ↦ record_block d ip ])

  unfoldable pub blocked_ips : DeviceBlocker S → Read S (List Text)
  blocked_ips blocker s = elim (blocker.get_blocked_ips) [ none ↦ ok [] | some read ↦ read s ]

  -- The writes of a run.
  unfoldable pub settle : DeviceBlocker S → Evidence → Expected → List Text → Call S (Unit {0})
  unfolding release_stale install_expected blocked_ips
  settle blocker known (keep, device_of) blocked = do
    for_each blocked (release_stale blocker known keep)
    current ← ask (blocked_ips blocker)
    for_each keep (install_expected blocker device_of current)

  unfoldable pub align : ℕ → DeviceBlocker S → Call S (Unit {0})
  unfolding settle evidence active_bindings expected
  align now blocker = do
    all_devices ← ask (devices.find_all)
    leases ← ask read_leases
    table ← ask neighbors
    blocked ← ask (blocked_ips blocker)
    bindings ← ask active_bindings
    let known = evidence now all_devices leases table bindings
    wanted ← ask (expected known all_devices ([], []))
    settle blocker known wanted blocked

  -- A run, at a time in seconds; an error ends it and is logged.
  unfoldable pub reconcile : ℕ → Call S (Unit {0})
  unfolding align
  reconcile now =
      catch (or_throw env.blocker enforcement_adapter_missing >>= align now) (λ e. pure tt)
