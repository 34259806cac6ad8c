-- ===== src/Quota/Tests.antt =====
-- Runs of quotas, and the theorems at concrete inputs.
use ayad_network_manager.Base.{
  ℕ, ◌≤◌, ◌<◌, ◌≡◌, refl, sym, ap, false, Option, none, some, List, [], ◌∷◌, codes, Text, nat_eq,
  text_eq, text_beq, arith,
}
use ayad_network_manager.Base.Effects.{Result, ok, err, pure}
use ayad_network_manager.Errors.{Error}
use ayad_network_manager.Text.{to_lower}
use ayad_network_manager.Text.Numerals.{to_radix}
use ayad_network_manager.Domain.Device.{DevicePolicy}
use ayad_network_manager.Quota.{QuotaPeriodData, Services, Notified, block, normalize_action}
use ayad_network_manager.Quota.Enforcement.{
  enforced, clear_stale, perform, enforce_action, enforce_quota_action,
}
use ayad_network_manager.Quota.Once.{IsQuotaStore, enforce_quota_action-once}
use ayad_network_manager.Quota.Notification.{notify_thresholds, notify_threshold}
use ayad_network_manager.Quota.Period.{
  calculate_period, month_of, month_length, next_year, next_month,
}
use ayad_network_manager.Quota.Calendar.{calculate_period-contains, calculate_period-same}
use ayad_network_manager.Quota.Thresholds.{notify_thresholds-once}

-- 29 February 1972, at noon.
abbrev leap_noon : ℕ
leap_noon = 68212800000

leap_month : calculate_period (codes "Monthly") leap_noon ≡ (65750400000, 68256000000)
unfolding calculate_period to_lower text_beq month_of month_length next_year next_month
leap_month = refl

leap_week : calculate_period (codes "weekly") leap_noon ≡ (68083200000, 68688000000)
unfolding calculate_period to_lower text_beq
leap_week = refl

calculate_period-contains_example :
    ((calculate_period (codes "monthly") leap_noon).0 ≤ leap_noon)
    × (leap_noon < (calculate_period (codes "monthly") leap_noon).1)
calculate_period-contains_example = calculate_period-contains (codes "monthly") leap_noon

week_start : (calculate_period (codes "weekly") leap_noon).0 ≡ 68083200000
unfolding calculate_period to_lower text_beq
week_start = refl

week_end : (calculate_period (codes "weekly") leap_noon).1 ≡ 68688000000
unfolding calculate_period to_lower text_beq
week_end = refl

calculate_period-same_example :
    calculate_period (codes "weekly") 68600000000 ≡ calculate_period (codes "weekly") leap_noon
calculate_period-same_example =
    calculate_period-same (codes "weekly") leap_noon 68600000000 (omega arith)
      (omega (arith, week_start)) (omega (arith, week_end))

abbrev period : QuotaPeriodData
period = record {
  id = 1;
  device_id = 7;
  period_type = codes "weekly";
  period_start = 68083200000;
  period_end = 68688000000;
  used_download_bytes = 80;
  used_upload_bytes = 15;
}

-- The notifications sent so far are the state.
abbrev services : Services (List Text)
services = record {
  devices = record {
    find_by_mac = λ m s. ok none;
    find_by_id = λ id s. ok none;
    find_all = λ s. ok [];
    update = λ id change. pure tt;
  };
  policies = record { find_by_device_id = λ id s. ok none; upsert = λ id change. pure tt };
  periods = record {
    find_current = λ id t now s. ok none;
    create = λ id t start end s. (ok period, s);
    update_usage = λ id d u s. (ok period, s);
    increment_usage = λ id d u s. (ok period, s);
    reset = λ id start end s. (ok period, s);
  };
  apply_quota_throttle = λ mac. pure tt;
  clear_quota_throttle = λ mac. pure tt;
  block_for_quota = λ mac. pure tt;
  unblock_for_quota = λ mac. pure tt;
  create_notification = λ id kind message s. (ok tt, kind ∷ s);
}

abbrev notified : Notified × List Text
notified =
    ((7, (68083200000, 90)) ∷ (7, (68083200000, 80)) ∷ [], codes "quota-90" ∷ codes "quota-80" ∷ [])

first_notified :
    notify_thresholds services 7 (codes "a") 100 95 68083200000 ([], []) ≡ (ok tt, notified)
unfolding notify_thresholds notify_threshold to_radix
first_notified = refl

notify_thresholds-once_example :
    notify_thresholds services 7 (codes "a") 100 95 68083200000 notified ≡ (ok tt, notified)
notify_thresholds-once_example =
    notify_thresholds-once services 7 (codes "a") 100 95 68083200000 ([], []) notified
      first_notified

-- The enforced action of the one policy, and the addresses that were blocked.
abbrev Enforced : Type 0
Enforced = Option Text × List Text

abbrev block_policy : Option Text → DevicePolicy
block_policy action = record {
  id = 1;
  device_id = 7;
  blocked = false;
  download_limit = none;
  upload_limit = none;
  quota = some 100;
  quota_period = some (codes "weekly");
  quota_action = some (codes "block");
  quota_enforced_action = action;
  profile_id = none;
  schedule_id = none;
}

abbrev block_services : Services Enforced
block_services = record {
  devices = record {
    find_by_mac = λ m s. ok none;
    find_by_id = λ id s. ok none;
    find_all = λ s. ok [];
    update = λ id change. pure tt;
  };
  policies = record {
    find_by_device_id = λ id s. ok (some (block_policy (s.0)));
    upsert = λ id change s.
        (ok tt, (elim (change.quota_enforced_action) [ none ↦ s.0 | some action ↦ action ], s.1));
  };
  periods = record {
    find_current = λ id t now s. ok none;
    create = λ id t start end s. (ok period, s);
    update_usage = λ id d u s. (ok period, s);
    increment_usage = λ id d u s. (ok period, s);
    reset = λ id start end s. (ok period, s);
  };
  apply_quota_throttle = λ mac. pure tt;
  clear_quota_throttle = λ mac. pure tt;
  block_for_quota = λ mac s. (ok tt, (s.0, mac ∷ s.1));
  unblock_for_quota = λ mac. pure tt;
  create_notification = λ id kind message. pure tt;
}

block_services-IsQuotaStore : IsQuotaStore block_services (λ s id. some (codes "block"))
unfolding enforced
block_services-IsQuotaStore = record {
  find_action = λ id s p h. ap (action_of) (sym h);
  upsert_found =
      λ id e s t h. (block_policy e, ap (λ r. ok (some (block_policy (r.1.0)))) (sym h), refl);
  upsert_keeps = λ id e. record { kept = λ s k. refl };
  apply_keeps = λ mac. record { kept = λ s k. refl };
  clear_keeps = λ mac. record { kept = λ s k. refl };
  block_keeps = λ mac. record { kept = λ s k. refl };
  unblock_keeps = λ mac. record { kept = λ s k. refl };
  notification_keeps = λ id kind message. record { kept = λ s k. refl };
}
  where
    action_of : Result Error (Option DevicePolicy) → Option Text
    action_of (ok (some p)) = p.quota_action
    action_of (ok none) = none
    action_of (err e) = none

first_enforced :
    enforce_quota_action block_services 7 (codes "a") (none, [])
    ≡ (ok tt, (some (codes "block"), codes "a" ∷ []))
unfolding enforce_quota_action enforce_action clear_stale perform enforced normalize_action text_beq
first_enforced = refl

block_action : normalize_action (some (codes "block")) ≡ some block
unfolding normalize_action text_beq to_lower
block_action = refl

enforce_quota_action-once_example :
    enforce_quota_action block_services 7 (codes "a") (some (codes "block"), codes "a" ∷ [])
    ≡ (ok tt, (some (codes "block"), codes "a" ∷ []))
enforce_quota_action-once_example =
    enforce_quota_action-once block_services block_services-IsQuotaStore 7 (codes "a") block
      (none, []) (some (codes "block"), codes "a" ∷ []) block_action first_enforced
