-- ===== src/Bindings/QuietTests.antt =====
-- A run of the reconciliation of blocked addresses, and the theorem there.
use ayad_network_manager.Base.{
  Bool, true, ◌||◌, Option, none, some, List, [], ◌∷◌, ◌≡◌, refl, sym, ap, ◌∙◌, Text, codes, ◌==◌,
  nat_eq, text_eq, text_beq, arith,
}
use ayad_network_manager.Base.Map.{has, delete, has-add, has-delete, lookup, insert}
use ayad_network_manager.Base.Effects.{ok, pure}
use ayad_network_manager.Text.{trim, to_lower}
use ayad_network_manager.Domain.Device.{Device}
use ayad_network_manager.Ports.{Call, Binding, DeviceBlocker}
use ayad_network_manager.Traffic.Memory.{two_megabits}
use ayad_network_manager.Bindings.{DhcpLease, is_lease_active, devices_by_id}
use ayad_network_manager.Bindings.Blocked.{
  Services, NeighborEntry, Evidence, evidence, bound_device, read_leases_of, bindings_by_ip,
  forget_binding, record_block, reconcile, active_bindings, normalize_mac,
}
use ayad_network_manager.Bindings.Held.{IsIpKernel, IsQuiet}
use ayad_network_manager.Bindings.Quiet.{quiet_stays_blocked}
use ayad_network_manager.Bindings.Tests.{World, without, add_ip, hidden}

-- Another client has an address that the kernel blocks.
abbrev newcomer : DhcpLease
newcomer = record {
  expiry = 0;
  mac = codes "02:00:00:00:00:08";
  ip = codes "10.0.0.9";
  hostname = none;
  client_id = none;
}

abbrev kernel : DeviceBlocker World
kernel = record {
  block = λ m ip. pure tt;
  unblock = λ m ip. pure tt;
  block_ip = some add_ip;
  unblock_ip = some (λ ip w. (ok tt, record w { ips = delete ip w.ips }));
  get_blocked_macs = none;
  get_blocked_ips = some (λ w. ok w.ips);
}

abbrev services : Services World
services = record {
  devices = record {
    find_by_mac = λ m s. ok (some hidden);
    find_by_id = λ id s. ok (some hidden);
    find_all = λ s. ok (hidden ∷ []);
    update = λ id change. pure tt;
  };
  policies = record {
    find_by_device_id = λ id s. ok (some (record two_megabits { blocked = true }));
    upsert = λ id change. pure tt;
  };
  read_leases = λ s. ok (newcomer ∷ []);
  neighbors = λ s. ok [];
  captures = none;
  blocked_devices = some (record {
    record_block = λ id m ip reason w. (
      ok tt,
      elim ip [
        | none ↦ w
        | some x ↦ record w { bindings = record { device_id = id; ip = x } ∷ w.bindings }
      ],
    );
    release_block = λ id. pure tt;
    active_ips = λ id w. ok [];
    active_bindings = λ w. ok w.bindings;
    release_ip = some (λ id ip reason w. (ok tt, record w { bindings = without id ip w.bindings }));
  });
  blocker = some kernel;
}

abbrev before : World
before = record {
  bindings = record { device_id = 7; ip = codes "10.0.0.7" } ∷ [];
  ips = codes "10.0.0.7" ∷ codes "10.0.0.9" ∷ [];
}

reassigned_released :
    reconcile services 0 before ≡ (ok tt, record before { ips = codes "10.0.0.7" ∷ [] })
unfolding reconcile has lookup is_lease_active text_beq to_lower trim insert bindings_by_ip
    devices_by_id delete
reassigned_released = refl

services-IsIpKernel : IsIpKernel services (λ w x. has x w.ips)
unfolding record_block forget_binding
services-IsIpKernel = record {
  block_ip_keeps = λ b f given is ip s x h.
      ap (λ g. has x (g ip s).1.ips) (sym (same_block b f given is))
      ∙ has-add ip x (s.ips)
      ∙ or_true (ip == x) _ h;
  unblock_ip_keeps = λ b f given is ip s x apart h.
      ap (λ g. has x (g ip s).1.ips) (sym (same_unblock b f given is))
      ∙ has-delete ip x (s.ips)
      ∙ rw (apart, h) refl;
  record_block_ips = λ d ip s x. refl;
  forget_binding_ips = λ id ip reason s x. refl;
}
  where
    or_true : (a b : Bool) → b ≡ true → (a || b) ≡ true
    or_true a b e = ground arith

    same_block :
        (b : DeviceBlocker World) (f : Text → Call World (Unit {0}))
        → ◌≡◌ {A = Option (DeviceBlocker World)} (some kernel) (some b)
        → b.block_ip ≡ some f
        → add_ip ≡ f
    same_block b f given is = cc

    same_unblock :
        (b : DeviceBlocker World) (f : Text → Call World (Unit {0}))
        → ◌≡◌ {A = Option (DeviceBlocker World)} (some kernel) (some b)
        → b.unblock_ip ≡ some f
        → (λ ip w. (ok tt, record w { ips = delete ip w.ips })) ≡ f
    same_unblock b f given is = cc

abbrev x : Text
x = codes "10.0.0.7"

abbrev known : List NeighborEntry → Evidence
known table =
    evidence 0 (hidden ∷ []) (newcomer ∷ []) table
      (record { device_id = 7; ip = codes "10.0.0.7" } ∷ [])

known-IsQuiet : (table : List NeighborEntry) → IsQuiet (known table) x
unfolding evidence read_leases_of is_lease_active bindings_by_ip devices_by_id bound_device lookup
    insert text_beq to_lower trim
known-IsQuiet table = record {
  unclaimed = refl;
  unmoved = λ d at.
      ap (λ e. lookup (normalize_mac e.mac.value) (known table).lease_ip_by_mac) (same d at);
}
  where
    same : (d : Device) → ◌≡◌ {A = Option Device} (some hidden) (some d) → d ≡ hidden
    same d at = cc

read-IsQuiet :
    (ds : List Device) (leases : List DhcpLease) (table : List NeighborEntry) (bs : List Binding)
    → services.devices.find_all before ≡ ok ds
    → services.read_leases before ≡ ok leases
    → active_bindings services before ≡ ok bs
    → IsQuiet (evidence 0 ds leases table bs) x
unfolding active_bindings
read-IsQuiet ds leases table bs found read bound =
    let d : ds ≡ hidden ∷ [] = cc in
    let l : leases ≡ newcomer ∷ [] = cc in
    let b : bs ≡ before.bindings = cc in rw (d, l, b) (known-IsQuiet table)

quiet_stays_blocked_example : has x (reconcile services 0 before).1.ips ≡ true
unfolding has text_beq
quiet_stays_blocked_example =
    quiet_stays_blocked services services-IsIpKernel 0 before x read-IsQuiet refl
