-- ===== src/Firewall/Kernel.antt =====
-- What the firewall relies on of its blocker.
use ayad_network_manager.Base.{
  Bool, not, ◌&&◌, ◌||◌, ◌≡◌, some, none, List, Text, ◌==◌, text_eq, All,
}
use ayad_network_manager.Base.Map.{has}
use ayad_network_manager.Base.Effects.{ok}
use ayad_network_manager.Domain.MacAddress
use ayad_network_manager.Domain.MacAddress.{MacAddress}
use ayad_network_manager.Ports.{Call, Read, DeviceBlocker}

-- A text that is its own normal form as a hardware address.
abbrev pub IsCanonical : Text → Type 0
IsCanonical x = MacAddress.create x ≡ ok (record { value = x })

-- The two sets that the kernel blocks, as `macs s` and `ips s`; a call that ends well adds or removes
-- its element and touches nothing else. `IsBlocker blocker macs ips` says so of a blocker that has
-- every optional call.
pub record IsBlocker {S : Type 0} (blocker : DeviceBlocker S) (macs ips : S → Text → Bool)
    : Type 0 where
  pub block_macs :
      (m : MacAddress) (s : S)
      → (blocker.block m none s).0 ≡ ok tt
      → (x : Text) → macs (blocker.block m none s).1 x ≡ (m.value == x || macs s x)
  pub block_ips :
      (m : MacAddress) (s : S)
      → (blocker.block m none s).0 ≡ ok tt
      → (x : Text) → ips (blocker.block m none s).1 x ≡ ips s x
  pub unblock_macs :
      (m : MacAddress) (s : S)
      → (blocker.unblock m none s).0 ≡ ok tt
      → (x : Text) → macs (blocker.unblock m none s).1 x ≡ (not (m.value == x) && macs s x)
  pub unblock_ips :
      (m : MacAddress) (s : S)
      → (blocker.unblock m none s).0 ≡ ok tt
      → (x : Text) → ips (blocker.unblock m none s).1 x ≡ ips s x
  pub block_ip : Text → Call S (Unit {0})
  pub has_block_ip : blocker.block_ip ≡ some block_ip
  pub block_ip_ips :
      (ip : Text) (s : S)
      → (block_ip ip s).0 ≡ ok tt
      → (x : Text) → ips (block_ip ip s).1 x ≡ (ip == x || ips s x)
  pub block_ip_macs :
      (ip : Text) (s : S)
      → (block_ip ip s).0 ≡ ok tt
      → (x : Text) → macs (block_ip ip s).1 x ≡ macs s x
  pub unblock_ip : Text → Call S (Unit {0})
  pub has_unblock_ip : blocker.unblock_ip ≡ some unblock_ip
  pub unblock_ip_ips :
      (ip : Text) (s : S)
      → (unblock_ip ip s).0 ≡ ok tt
      → (x : Text) → ips (unblock_ip ip s).1 x ≡ (not (ip == x) && ips s x)
  pub unblock_ip_macs :
      (ip : Text) (s : S)
      → (unblock_ip ip s).0 ≡ ok tt
      → (x : Text) → macs (unblock_ip ip s).1 x ≡ macs s x
  pub read_macs : Read S (List Text)
  pub has_read_macs : blocker.get_blocked_macs ≡ some read_macs
  pub read_macs_all :
      (s : S) (l : List Text)
      → read_macs s ≡ ok l
      → All IsCanonical l × ((x : Text) → has x l ≡ macs s x)
  pub read_ips : Read S (List Text)
  pub has_read_ips : blocker.get_blocked_ips ≡ some read_ips
  pub read_ips_all : (s : S) (l : List Text) → read_ips s ≡ ok l → (x : Text) → has x l ≡ ips s x
