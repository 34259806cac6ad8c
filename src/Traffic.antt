-- ===== src/Traffic.antt =====
-- backend/src/application/enforcement/TrafficEnforcer.ts, and what the services on it share.
pub mod Enforcement
pub mod Reconciliation
pub mod Kernel
pub mod Wanted
pub mod Rates
pub mod Converges
pub mod Limits
pub mod Memory
mod Tests
pub mod Returns
use ayad_network_manager.Base.{
  ℕ, Bool, true, false, Option, none, some, List, Text, codes, ◌==◌, nat_eq, text_eq,
}
use ayad_network_manager.Base.Int.{ℤ}
use ayad_network_manager.Domain.Device.{Device, DevicePolicy}
use ayad_network_manager.Domain.TcClassId.{Direction, download, upload}
use ayad_network_manager.Ports.{Call, PolicyChange, no_change}

-- `limitDownload(device, { rateMbps })` takes thousandths of a megabit, `limitDownloadBits` bits in a
-- second; a set of class ids is the list of its elements.
pub record TrafficEnforcer (S : Type 0) : Type 0 where
  pub initialize_base_state : Call S (Unit {0})
  pub clear_base_state : Call S (Unit {0})
  pub limit_download : Device → ℤ → Call S (Unit {0})
  pub limit_upload : Device → ℤ → Call S (Unit {0})
  pub limit_download_bits : Device → ℕ → Call S (Unit {0})
  pub limit_upload_bits : Device → ℕ → Call S (Unit {0})
  pub clear_download : Device → Call S (Unit {0})
  pub clear_upload : Device → Call S (Unit {0})
  pub reconcile_download_state : List Text → Call S (Unit {0})
  pub reconcile_upload_state : List Text → Call S (Unit {0})

-- The configured rate `quotaThrottleMbps`, a float: whether it is finite and above zero, and its
-- nearest whole numbers of thousandths of a megabit and of bits.
pub record ThrottleRate : Type 0 where
  pub is_valid : Bool
  pub milli_megabits : ℕ
  pub bits : ℕ

abbrev pub is_throttled : DevicePolicy → Bool
is_throttled p = elim (p.quota_enforced_action) [
  | none ↦ false
  | some action ↦ action == codes "throttle"
]

abbrev pub is_some {ℓ} : {A : Type ℓ} → Option A → Bool
is_some none = false
is_some (some a) = true

-- The limit of a policy in one direction, and a change of it alone.
abbrev pub limit_in : Direction → DevicePolicy → Option ℕ
limit_in download p = p.download_limit
limit_in upload p = p.upload_limit

abbrev pub change_limit : Direction → Option ℕ → PolicyChange
change_limit download limit = record no_change { download_limit = some limit }
change_limit upload limit = record no_change { upload_limit = some limit }

module _ {S : Type 0} (enforcer : TrafficEnforcer S) where
  abbrev pub limit : Direction → Device → ℤ → Call S (Unit {0})
  limit download = enforcer.limit_download
  limit upload = enforcer.limit_upload

  abbrev pub limit_bits : Direction → Device → ℕ → Call S (Unit {0})
  limit_bits download = enforcer.limit_download_bits
  limit_bits upload = enforcer.limit_upload_bits

  abbrev pub clear : Direction → Device → Call S (Unit {0})
  clear download = enforcer.clear_download
  clear upload = enforcer.clear_upload

  abbrev pub reconcile_state : Direction → List Text → Call S (Unit {0})
  reconcile_state download = enforcer.reconcile_download_state
  reconcile_state upload = enforcer.reconcile_upload_state
