-- ===== src/Traffic/Memory.antt =====
-- A traffic service whose kernel refuses every limit, and a device, for the runs of tests.
use ayad_network_manager.Base.{
  ℕ, true, false, Option, none, some, [], ◌∷◌, ◌≡◌, refl, sym, ap, codes, ◌==◌, nat_eq, text_eq,
  if◌then◌else◌,
}
use ayad_network_manager.Base.Int.{pos}
use ayad_network_manager.Base.Effects.{ok, err, pure}
use ayad_network_manager.Errors.{call_failed}
use ayad_network_manager.Text.{is_digit}
use ayad_network_manager.Text.Numerals.{read, read_from, digit_value}
use ayad_network_manager.Rate.{validate}
use ayad_network_manager.Domain.TcClassId.{download}
use ayad_network_manager.Domain.Device.{Device, DevicePolicy, dhcp}
use ayad_network_manager.Ports.{DeviceRepository}
use ayad_network_manager.Firewall.{resolve_device_identifier, is_resource_id, ip_text}
use ayad_network_manager.Traffic.{TrafficEnforcer}
use ayad_network_manager.Traffic.Enforcement
use ayad_network_manager.Traffic.Enforcement.{resolve_fresh_device, audit}
use ayad_network_manager.Traffic.Limits.{IsLimitView}

abbrev pub desk : Device
desk = record {
  id = 7;
  mac = record { value = codes "02:00:00:00:00:07" };
  ip = some (record { value = codes "10.0.0.7" });
  hostname = none;
  l2_visible = true;
  proxy_mac = none;
  identity_validated = true;
  identity_source = dhcp;
  first_seen = 0;
  last_seen = 0;
}

-- A download limit of two megabits.
abbrev pub two_megabits : DevicePolicy
two_megabits = record {
  id = 1;
  device_id = 7;
  blocked = false;
  download_limit = some 2000;
  upload_limit = none;
  quota = none;
  quota_period = none;
  quota_action = none;
  quota_enforced_action = none;
  profile_id = none;
  schedule_id = none;
}

-- The same device throttled by its quota, with no limit of its own.
abbrev pub throttled_only : DevicePolicy
throttled_only = record two_megabits {
  download_limit = none;
  quota_enforced_action = some (codes "throttle");
}

abbrev pub one_device : {S : Type 0} → DeviceRepository S
one_device = record {
  find_by_mac = λ m s. ok (some desk);
  find_by_id = λ id s. ok (some desk);
  find_all = λ s. ok (desk ∷ []);
  update = λ id change. pure tt;
}

-- The download limit of each device.
abbrev pub Limits : Type 0
Limits = ℕ → Option ℕ

abbrev pub no_limits : Limits
no_limits id = none

abbrev pub written : ℕ → Option (Option ℕ) → Limits → Limits
written id none limits k = limits k
written id (some new) limits k = if id == k then new else limits k

abbrev pub refusing : TrafficEnforcer Limits
refusing = record {
  initialize_base_state = pure tt;
  clear_base_state = pure tt;
  limit_download = λ d rate s. (err (call_failed (codes "tc")), s);
  limit_upload = λ d rate s. (err (call_failed (codes "tc")), s);
  limit_download_bits = λ d bits. pure tt;
  limit_upload_bits = λ d bits. pure tt;
  clear_download = λ d s. (err (call_failed (codes "tc")), s);
  clear_upload = λ d. pure tt;
  reconcile_download_state = λ classes. pure tt;
  reconcile_upload_state = λ classes. pure tt;
}

-- Enforcement whose kernel refuses every limit, at a device throttled by its quota.
abbrev pub enforcement : Enforcement.Services Limits
enforcement = record {
  enforcer = refusing;
  uplink = pos 100;
  devices = one_device;
  upsert = λ data_given s. (ok desk, s);
  policies = record {
    find_by_device_id = λ id s. ok (some throttled_only);
    upsert = λ id change s. (ok tt, written id change.download_limit s);
  };
  throttle_rate = record { is_valid = true; milli_megabits = 500; bits = 500000 };
  operations = none;
  discover = none;
  is_ip = λ text. 4;
}

pub enforcement-IsLimitView : IsLimitView enforcement download (λ limits. limits)
unfolding audit
enforcement-IsLimitView = record {
  upsert_limit = λ id new s t h k. ap (λ r. r.1 k) (sym h);
  limit_keeps = λ d rate. record { kept = λ s k. refl };
  clear_keeps = λ d. record { kept = λ s k. refl };
  clear_base_keeps = record { kept = λ s k. refl };
  audit_keeps = λ action d details. record { kept = λ s k. refl };
}

pub desk_resolved :
    resolve_fresh_device enforcement 0 (codes "7") no_limits ≡ (ok (some desk), no_limits)
unfolding resolve_fresh_device resolve_device_identifier is_resource_id is_digit read read_from
    digit_value
desk_resolved = refl

pub rate_accepted : validate (pos 100) (codes "02:00:00:00:00:07") (ip_text desk) (pos 2000) ≡ ok tt
unfolding validate
rate_accepted = refl
