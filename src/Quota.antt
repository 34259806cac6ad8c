-- ===== src/Quota.antt =====
-- backend/src/application/quota/QuotaService.ts, with the interface of
-- backend/src/domain/repositories/QuotaPeriodRepository.ts: the periods, the view of a quota
-- and what the service calls.
pub mod Period
pub mod Calendar
pub mod Enforcement
pub mod Notification
pub mod Operations
pub mod Once
pub mod Thresholds
mod Tests
use ayad_network_manager.Base.{
  ℕ, ◌+◌, ◌-◌, Bool, false, ◌&&◌, Option, none, some, List, Text, codes, ltb, leb, ◌==◌, nat_eq,
  text_eq, if◌then◌else◌,
}
use ayad_network_manager.Domain.Device.{DevicePolicy}
use ayad_network_manager.Ports.{Call, Read, DeviceRepository, DevicePolicyRepository}

pub record QuotaPeriodData : Type 0 where
  pub id : ℕ
  pub device_id : ℕ
  pub period_type : Text
  pub period_start : ℕ
  pub period_end : ℕ
  pub used_download_bytes : ℕ
  pub used_upload_bytes : ℕ

-- `find_current device_id period_type at`, `create device_id period_type start end`,
-- `update_usage id download upload`, `increment_usage id download upload`, `reset id start end`.
pub record QuotaPeriodRepository (S : Type 0) : Type 0 where
  pub find_current : ℕ → Text → ℕ → Read S (Option QuotaPeriodData)
  pub create : ℕ → Text → ℕ → ℕ → Call S QuotaPeriodData
  pub update_usage : ℕ → ℕ → ℕ → Call S QuotaPeriodData
  pub increment_usage : ℕ → ℕ → ℕ → Call S QuotaPeriodData
  pub reset : ℕ → ℕ → ℕ → Call S QuotaPeriodData

pub record QuotaView : Type 0 where
  pub quota : Option ℕ
  pub quota_period : Option Text
  pub quota_action : Option Text
  pub period_start : Option ℕ
  pub period_end : Option ℕ
  pub used_download_bytes : ℕ
  pub used_upload_bytes : ℕ
  pub used_bytes : ℕ
  pub remaining_bytes : Option ℕ
  pub exhausted : Bool

pub data QuotaAction : Type 0 where
  notify_only throttle block : QuotaAction

abbrev pub action_text : QuotaAction → Text
action_text notify_only = codes "notify-only"
action_text throttle = codes "throttle"
action_text block = codes "block"

unfoldable pub normalize_action : Option Text → Option QuotaAction
normalize_action none = none
normalize_action (some value) =
    if value == codes "notify-only"
    then some notify_only
    else if value == codes "throttle"
    then some throttle
    else if value == codes "block"
    then some block
    else none

unfoldable pub build_view : ℕ → Text → Option Text → QuotaPeriodData → QuotaView
build_view quota quota_period quota_action period =
    let used_bytes = period.used_download_bytes + period.used_upload_bytes in
    record {
      quota = some quota;
      quota_period = some quota_period;
      quota_action = quota_action;
      period_start = some period.period_start;
      period_end = some period.period_end;
      used_download_bytes = period.used_download_bytes;
      used_upload_bytes = period.used_upload_bytes;
      used_bytes = used_bytes;
      remaining_bytes = some (if ltb used_bytes quota then quota - used_bytes else 0);
      exhausted = leb quota used_bytes;
    }

-- What `getQuota` answers where no quota is set.
abbrev pub empty_view : DevicePolicy → QuotaView
empty_view policy = record {
  quota = none;
  quota_period = policy.quota_period;
  quota_action = policy.quota_action;
  period_start = none;
  period_end = none;
  used_download_bytes = 0;
  used_upload_bytes = 0;
  used_bytes = 0;
  remaining_bytes = none;
  exhausted = false;
}

-- A key of `notifiedThresholds`: device, start of the period, threshold.
abbrev pub Key : Type 0
Key = ℕ × (ℕ × ℕ)

abbrev pub same_key : Key → Key → Bool
same_key (a, (b, c)) (d, (e, f)) = a == d && b == e && c == f

-- `create device_id type message` is that of the notification repository.
pub record Services (S : Type 0) : Type 0 where
  pub devices : DeviceRepository S
  pub policies : DevicePolicyRepository S
  pub periods : QuotaPeriodRepository S
  pub apply_quota_throttle : Text → Call S (Unit {0})
  pub clear_quota_throttle : Text → Call S (Unit {0})
  pub block_for_quota : Text → Call S (Unit {0})
  pub unblock_for_quota : Text → Call S (Unit {0})
  pub create_notification : ℕ → Text → Text → Call S (Unit {0})

-- The service's state is the set of thresholds notified so far.
abbrev pub Notified : Type 0
Notified = List Key

-- A call of a collaborator, which does not reach the service's own state.
abbrev pub outer : {S A : Type 0} → Call S A → Call (Notified × S) A
outer m (keys, s) = let (r, t) = m s in (r, (keys, t))
