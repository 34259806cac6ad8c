-- ===== src/Firewall/Tests.antt =====
-- Runs of the firewall in memory, and its theorems at concrete inputs.
use ayad_network_manager.Base.{
  List, All, true, false, ◌≡◌, refl, none, some, [], ◌∷◌, Text, codes, ◌==◌, ◌||◌, ◌&&◌, not,
  nat_eq, text_eq, text_beq, any,
}
use ayad_network_manager.Base.Map.{has, add, delete}
use ayad_network_manager.Base.Effects.{ok, err}
use ayad_network_manager.Errors.{Error}
use ayad_network_manager.Text.{trim, to_lower, is_hex, is_digit}
use ayad_network_manager.Domain.MacAddress.{create, is_mac, normalize_mac}
use ayad_network_manager.Firewall.{
  reconcile, block_device, unblock_device, block_for_quota, unblock_for_quota, is_resource_id,
  resolve_device_identifier, desired, want, is_proxy_request, proxy_macs, is_requester,
}
use ayad_network_manager.Firewall.Kernel.{IsCanonical}
use ayad_network_manager.Domain.Device.{Device}
use ayad_network_manager.Firewall.Returns.{reconcile-Returns}
use ayad_network_manager.Firewall.Desired.{asks_mac, asks_ip}
use ayad_network_manager.Firewall.Reconcile.{reconcile_exact}
use ayad_network_manager.Firewall.PolicyKept.{quota_keeps_policy}
use ayad_network_manager.Firewall.Guards.{
  may_block, block_device_refuses, block_device_persists, unblock_device_persists,
}
use ayad_network_manager.Firewall.Memory.{
  World, laptop, phone, world, memory, macs_of, ips_of, blocked_of, memory-IsBlocker,
  memory-IsReliable, memory-IsPolicyView,
}

abbrev reconciled : World
reconciled = record world { macs = codes "02:00:00:00:00:07" ∷ []; ips = codes "10.0.0.8" ∷ [] }

reconcile_run : reconcile memory world ≡ (ok tt, reconciled)
unfolding reconcile has add delete text_beq create desired want is_mac normalize_mac to_lower trim
    is_hex
reconcile_run = refl

abbrev laptop_mac : Text
laptop_mac = codes "02:00:00:00:00:07"

devices-IsCanonical : All (λ d. IsCanonical (d.mac.value)) (laptop ∷ phone ∷ [])
unfolding create text_beq is_mac normalize_mac to_lower trim is_hex
devices-IsCanonical = (refl, (refl, tt))

laptop_known : resolve_device_identifier (memory.devices) laptop_mac world ≡ ok (some laptop)
unfolding resolve_device_identifier create text_beq is_resource_id is_digit is_mac normalize_mac
    to_lower trim is_hex
laptop_known = refl

own_request : may_block laptop_mac (some (codes "10.0.0.7")) laptop (laptop ∷ phone ∷ []) ≡ false
unfolding may_block text_beq is_proxy_request is_mac is_hex has proxy_macs add to_lower trim
    is_requester
own_request = refl

other_request : may_block laptop_mac (some (codes "10.0.0.9")) laptop (laptop ∷ phone ∷ []) ≡ true
unfolding may_block text_beq is_proxy_request is_mac is_hex has proxy_macs add to_lower trim
    is_requester
other_request = refl

world-IsCanonical :
    (ds : List Device)
    → memory.devices.find_all world ≡ ok ds
    → All (λ d. IsCanonical d.mac.value) ds
world-IsCanonical ds h = let same : laptop ∷ phone ∷ [] ≡ ds = cc in rw⁻¹ same devices-IsCanonical

reconcile_exact_example :
    (macs_of reconciled laptop_mac ≡ any (asks_mac memory world laptop_mac) (laptop ∷ phone ∷ []))
    × (ips_of reconciled laptop_mac ≡ any (asks_ip memory world laptop_mac) (laptop ∷ phone ∷ []))
reconcile_exact_example =
    reconcile_exact memory memory-IsBlocker (laptop ∷ phone ∷ []) world reconciled
      devices-IsCanonical refl reconcile_run laptop_mac

block_device_refuses_example :
    (e : Error) × (block_device memory laptop_mac (some (codes "10.0.0.7")) world ≡ (err e, world))
block_device_refuses_example =
    block_device_refuses memory laptop_mac (some (codes "10.0.0.7")) laptop (laptop ∷ phone ∷ [])
      world laptop_known refl own_request

block_device_persists_example :
    blocked_of (block_device memory laptop_mac (some (codes "10.0.0.9")) world).1 7
    ≡ (laptop.id == 7 || blocked_of world 7)
block_device_persists_example =
    block_device_persists memory laptop_mac (some (codes "10.0.0.9")) laptop (laptop ∷ phone ∷ [])
      world memory-IsPolicyView laptop_known refl other_request refl 7

unblock_device_persists_example :
    blocked_of (unblock_device memory laptop_mac world).1 7
    ≡ (not (laptop.id == 7) && blocked_of world 7)
unblock_device_persists_example =
    unblock_device_persists memory laptop_mac none laptop [] world memory-IsPolicyView laptop_known
      refl 7

quota_keeps_policy_example :
    (blocked_of (block_for_quota memory laptop_mac world).1 8 ≡ blocked_of world 8)
    × (blocked_of (unblock_for_quota memory laptop_mac world).1 8 ≡ blocked_of world 8)
quota_keeps_policy_example = quota_keeps_policy memory memory-IsPolicyView laptop_mac world 8

reconcile-Returns_example : (t : World) × (reconcile memory world ≡ (ok tt, t))
reconcile-Returns_example =
    reconcile-Returns memory memory-IsReliable memory-IsBlocker world world-IsCanonical
