-- ===== src/Policies/Tests.antt =====
-- Runs of schedules, and the theorems at concrete inputs.
use ayad_network_manager.Base.{
  ℕ, ◌+◌, ◌-◌, ◌%◌, ◌<◌, ◌≡◌, ◌↔◌, refl, true, false, Option, none, some, [], ◌∷◌, codes, nat_eq,
  text_eq, bool_eq, text_beq, if◌then◌else◌, arith,
}
use ayad_network_manager.Base.Map.{lookup, insert, erase, add, delete, has}
use ayad_network_manager.Base.Effects.{ok, pure}
use ayad_network_manager.Text.{
  split, is_digit, is_hex, trim, trim_start, strip_end, is_space, to_lower, lower_code,
}
use ayad_network_manager.Text.Numerals.{read, read_from, digit_value}
use ayad_network_manager.Domain.MacAddress
use ayad_network_manager.Domain.Device.{DevicePolicy}
use ayad_network_manager.Firewall.{resolve_device_identifier, is_resource_id}
use ayad_network_manager.Firewall.Memory.{
  World, laptop, world, memory, macs_of, ips_of, memory-IsBlocker,
}
use ayad_network_manager.Policies.{ScheduleRuleRecord, or_else}
use ayad_network_manager.Policies.Window.{parse_time, in_window, in_window_iff}
use ayad_network_manager.Policies.Schedule
use ayad_network_manager.Policies.Schedule.{
  mac, same_target, ScheduledState, target_for, asks_block, switch_target, audit_target,
  enforce_target, leave_target, enter, restore, settle_block, settle_limit, settle_limits,
  settle_known,
}
use ayad_network_manager.Policies.Held.{held, IsApart}
use ayad_network_manager.Traffic.Memory.{
  desk, throttled_only, one_device, Limits, no_limits, written, enforcement,
  enforcement-IsLimitView, rate_accepted,
}
use ayad_network_manager.Traffic.Enforcement
use ayad_network_manager.Policies.Limits.{limits_of, limits_never_cleared, window_limit_persists}
use ayad_network_manager.Policies.Windows.{Agrees, was_at, window_enforced, window_restored}

-- Mondays, from ten in the evening until six in the morning.
abbrev night : ScheduleRuleRecord
night = record {
  id = 1;
  day_of_week = 1;
  start_time = codes "22:00";
  end_time = codes "06:00";
  download_limit = none;
  upload_limit = none;
  blocked = some true;
}

after_midnight : in_window night 60 ≡ true
unfolding in_window split read read_from digit_value is_digit
after_midnight = refl

at_noon : in_window night 720 ≡ false
unfolding in_window split read read_from digit_value is_digit
at_noon = refl

ten : parse_time (codes "22:00") ≡ some 1320
unfolding parse_time split read read_from digit_value is_digit
ten = refl

six : parse_time (codes "06:00") ≡ some 360
unfolding parse_time split read read_from digit_value is_digit
six = refl

in_window_iff_example :
    (in_window night 60 ≡ true) ↔ ((60 + 1440 - 1320) % 1440 < (360 + 1440 - 1320) % 1440)
in_window_iff_example =
    in_window_iff night 1320 360 60 ten six (omega arith) (omega arith) (omega arith)

abbrev schedules : Schedule.Services World
schedules = record {
  devices = memory.devices;
  policies = memory.policies;
  catalog = record { profiles = λ s. ok []; schedules = λ s. ok [] };
  traffic = record {
    limit_download = λ m rate. pure tt;
    limit_upload = λ m rate. pure tt;
    clear_download = λ m. pure tt;
    clear_upload = λ m. pure tt;
  };
  blocker = memory.blocker;
  operations = none;
}

schedules-IsApart : IsApart schedules macs_of ips_of
unfolding audit_target
schedules-IsApart = record {
  audit_keeps = λ at b. record { kept = λ s k. refl };
  limit_download_keeps = λ m rate. record { kept = λ s k. refl };
  limit_upload_keeps = λ m rate. record { kept = λ s k. refl };
  clear_download_keeps = λ m. record { kept = λ s k. refl };
  clear_upload_keeps = λ m. record { kept = λ s k. refl };
}

abbrev allowed : DevicePolicy
allowed = record {
  id = 1;
  device_id = 7;
  blocked = false;
  download_limit = none;
  upload_limit = none;
  quota = none;
  quota_period = none;
  quota_action = none;
  quota_enforced_action = none;
  profile_id = none;
  schedule_id = some 1;
}

abbrev remembered : ScheduledState
remembered = record { blocked = true; at = mac (codes "02:00:00:00:00:07") }

abbrev at_night : World
at_night = record world { macs = codes "02:00:00:00:00:09" ∷ codes "02:00:00:00:00:07" ∷ [] }

laptop_target : target_for laptop ≡ some (mac (codes "02:00:00:00:00:07"))
unfolding target_for
laptop_target = refl

laptop_normal :
    MacAddress.create (codes "02:00:00:00:00:07")
    ≡ ok (record { value = codes "02:00:00:00:00:07" })
unfolding MacAddress.create MacAddress.normalize_mac MacAddress.is_mac trim trim_start strip_end
    is_space to_lower lower_code is_hex is_digit
laptop_normal = refl

entered :
    settle_known schedules laptop allowed (some night) ([], world)
    ≡ (ok tt, ((7, remembered) ∷ [], at_night))
unfolding settle_known settle_block settle_limits settle_limit enter enforce_target switch_target
    audit_target target_for lookup insert MacAddress.create MacAddress.normalize_mac
    MacAddress.is_mac trim trim_start strip_end is_space to_lower lower_code is_hex is_digit
    text_beq add
entered = refl

window_enforced_example :
    (held macs_of ips_of at_night (mac (codes "02:00:00:00:00:07")) ≡ (
      if same_target (mac (codes "02:00:00:00:00:07")) (mac (codes "02:00:00:00:00:07"))
      then asks_block night allowed
      else if was_at (lookup {K = ℕ} 7 []) (mac (codes "02:00:00:00:00:07"))
      then false
      else held macs_of ips_of world (mac (codes "02:00:00:00:00:07"))))
    × (lookup {K = ℕ} 7 ((7, remembered) ∷ [])
        ≡ some
            (record { blocked = asks_block night allowed; at = mac (codes "02:00:00:00:00:07") }))
    × Agrees (held macs_of ips_of) at_night (lookup {K = ℕ} 7 ((7, remembered) ∷ []))
unfolding lookup
window_enforced_example =
    window_enforced schedules memory-IsBlocker schedules-IsApart laptop allowed night
      (mac (codes "02:00:00:00:00:07")) [] ((7, remembered) ∷ []) world at_night tt laptop_target
      laptop_normal entered (mac (codes "02:00:00:00:00:07"))

left :
    settle_known schedules laptop allowed none ((7, remembered) ∷ [], at_night)
    ≡ (ok tt, ([], world))
unfolding settle_known settle_block settle_limits settle_limit restore leave_target same_target
    enforce_target switch_target audit_target target_for lookup erase MacAddress.create
    MacAddress.normalize_mac MacAddress.is_mac trim trim_start strip_end is_space to_lower
    lower_code is_hex is_digit text_beq delete
left = refl

was_remembered : lookup {K = ℕ} 7 ((7, remembered) ∷ []) ≡ some remembered
unfolding lookup
was_remembered = refl

night_held : held macs_of ips_of at_night (mac (codes "02:00:00:00:00:07")) ≡ true
unfolding has MacAddress.create MacAddress.normalize_mac MacAddress.is_mac trim trim_start strip_end
    is_space to_lower lower_code is_hex is_digit text_beq
night_held = refl

still_there :
    or_else (target_for laptop) (some (mac (codes "02:00:00:00:00:07")))
    ≡ some (mac (codes "02:00:00:00:00:07"))
unfolding target_for
still_there = refl

window_restored_example :
    (held macs_of ips_of world (mac (codes "02:00:00:00:00:07")) ≡ (
      if same_target (mac (codes "02:00:00:00:00:07")) (mac (codes "02:00:00:00:00:07"))
      then false
      else held macs_of ips_of at_night (mac (codes "02:00:00:00:00:07"))))
    × (◌≡◌ {A = Option ScheduledState} (lookup {K = ℕ} 7 []) none)
window_restored_example =
    window_restored schedules memory-IsBlocker schedules-IsApart laptop allowed remembered
      ((7, remembered) ∷ []) [] at_night world was_remembered (night_held, laptop_normal)
      still_there left (mac (codes "02:00:00:00:00:07"))

-- A rule that limits the download to two megabits.
abbrev slow_night : ScheduleRuleRecord
slow_night = record night { download_limit = some 2000 }

limits_never_cleared_example :
    settle_limits
      (record schedules {
        traffic = record schedules.traffic {
          clear_download = λ m s. (ok tt, record s { macs = [] });
          clear_upload = λ m s. (ok tt, record s { macs = [] });
        };
      })
      laptop
      allowed
      none
    ≡ settle_limits schedules laptop allowed none
limits_never_cleared_example =
    limits_never_cleared schedules (λ m s. (ok tt, record s { macs = [] }))
      (λ m s. (ok tt, record s { macs = [] })) laptop allowed none

-- Schedules wired to a traffic service whose kernel refuses every limit.
abbrev wired : Schedule.Services Limits
wired = record {
  devices = one_device;
  policies = enforcement.policies;
  catalog = record { profiles = λ s. ok []; schedules = λ s. ok [] };
  traffic = limits_of enforcement 0;
  blocker = record {
    block = λ m address. pure tt;
    unblock = λ m address. pure tt;
    block_ip = none;
    unblock_ip = none;
    get_blocked_macs = none;
    get_blocked_ips = none;
  };
  operations = none;
}

resolved_by_address :
    Enforcement.resolve_fresh_device enforcement 0 (codes "02:00:00:00:00:07") no_limits
    ≡ (ok (some desk), no_limits)
unfolding Enforcement.resolve_fresh_device resolve_device_identifier is_resource_id read is_digit
    MacAddress.create MacAddress.normalize_mac MacAddress.is_mac to_lower trim is_hex
resolved_by_address = refl

window_limit_persists_example :
    (settle_limits wired desk throttled_only (some slow_night) no_limits).1 7 ≡ some 2000
window_limit_persists_example =
    window_limit_persists wired enforcement 0 refl enforcement-IsLimitView desk desk throttled_only
      slow_night (record { value = codes "10.0.0.7" }) 2000 no_limits no_limits
      (written 7 (some (some 2000)) no_limits) refl refl refl refl resolved_by_address refl
      rate_accepted refl
