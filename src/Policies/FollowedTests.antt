-- ===== src/Policies/FollowedTests.antt =====
-- A run of the profiles, and the theorem there.
use ayad_network_manager.Base.{
  ℕ, true, false, Option, none, some, [], ◌∷◌, ◌≡◌, refl, ◌∙◌, sym, ap, codes, ◌==◌, nat_eq,
  if◌then◌else◌, Bool-cases, inl, inr,
}
use ayad_network_manager.Base.Effects.{ok, pure, changes}
use ayad_network_manager.Domain.Device.{Device, DevicePolicy}
use ayad_network_manager.Traffic.Memory.{desk, two_megabits}
use ayad_network_manager.Base.Int.{ℤ, pos}
use ayad_network_manager.Base.Frame.{Keeps}
use ayad_network_manager.Domain.TcClassId.{Direction, download, upload}
use ayad_network_manager.Domain.MacAddress
use ayad_network_manager.Text.{trim, to_lower, is_hex, is_digit}
use ayad_network_manager.Rate.{validate}
use ayad_network_manager.Firewall.{resolve_device_identifier, is_resource_id}
use ayad_network_manager.Traffic.{TrafficEnforcer, change_limit, limit, clear}
use ayad_network_manager.Traffic.Enforcement
use ayad_network_manager.Traffic.Enforcement.Rows.{put_limit, IsPolicyRows}
use ayad_network_manager.Traffic.Memory.{one_device}
use ayad_network_manager.Ports.{PolicyChange}
use ayad_network_manager.Policies.Limits.{limits_of}
use ayad_network_manager.Policies.Patched.{patched}
use ayad_network_manager.Policies.{ProfileRecord}
use ayad_network_manager.Policies.Profile.{Services, reconcile}
use ayad_network_manager.Policies.Taken.{change}
use ayad_network_manager.Policies.Followed.{reconcile-change}

-- The state is the policy of the only device.
abbrev Row : Type 0
Row = Option DevicePolicy

abbrev row : Row → ℕ → Option DevicePolicy
row s k = if 7 == k then s else none

abbrev night : ProfileRecord
night = record {
  id = 9;
  name = codes "night";
  description = none;
  download_limit = none;
  upload_limit = some 500;
  quota = none;
  quota_period = none;
}

-- A write makes the policy where there is none.
abbrev upsert : PolicyChange → Row → Row
upsert change none = some (patched change two_megabits)
upsert change (some p) = some (patched change p)

abbrev accepting : TrafficEnforcer Row
accepting = record {
  initialize_base_state = pure tt;
  clear_base_state = pure tt;
  limit_download = λ d rate. pure tt;
  limit_upload = λ d rate. pure tt;
  limit_download_bits = λ d bits. pure tt;
  limit_upload_bits = λ d bits. pure tt;
  clear_download = λ d. pure tt;
  clear_upload = λ d. pure tt;
  reconcile_download_state = λ classes. pure tt;
  reconcile_upload_state = λ classes. pure tt;
}

abbrev traffic : Enforcement.Services Row
traffic = record {
  enforcer = accepting;
  uplink = pos 100;
  devices = one_device;
  upsert = λ input s. (ok desk, s);
  policies = record {
    find_by_device_id = λ id s. ok (row s id);
    upsert = λ id change s. (ok tt, if 7 == id then upsert change s else s);
  };
  throttle_rate = record { is_valid = true; milli_megabits = 500; bits = 500000 };
  operations = none;
  discover = none;
  is_ip = λ text. 4;
}

abbrev services : Services Row
services = record {
  devices = one_device;
  policies = record { find_by_device_id = λ id s. ok (row s id); upsert = λ id change. pure tt };
  catalog = record { profiles = λ s. ok (night ∷ []); schedules = λ s. ok [] };
  traffic = limits_of traffic 0;
}

services-reads :
    (id : ℕ) (s : Row) (o : Option DevicePolicy)
    → services.policies.find_by_device_id id s ≡ ok o
    → o ≡ row s id
services-reads id s o h = cc

traffic-write :
    (direction : Direction) (new : Option ℕ) (s t : Row) (p : DevicePolicy)
    → row s 7 ≡ some p
    → traffic.policies.upsert 7 (change_limit direction new) s ≡ (ok tt, t)
    → (k : ℕ) → row t k ≡ (if 7 == k then put_limit direction new (row s k) else row s k)
unfolding patched
traffic-write direction new s t p at h k = elim (Bool-cases (7 == k)) [
  | inl here ↦ rw here (sym (ap (λ r. r.1) h) ∙ written direction s at)
  | inr other ↦ rw other refl
]
  where
    written :
        (dir : Direction) (u : Row)
        → u ≡ some p
        → upsert (change_limit dir new) u ≡ put_limit dir new u
    written dir none e = absurd (cc)
    written download (some q) e = refl
    written upload (some q) e = refl

desk_normal : MacAddress.create desk.mac.value ≡ ok desk.mac
unfolding MacAddress.create MacAddress.is_mac MacAddress.normalize_mac to_lower trim is_hex
desk_normal = refl

desk_address : is_resource_id desk.mac.value ≡ false
unfolding is_resource_id is_digit
desk_address = refl

traffic-IsPolicyRows : IsPolicyRows traffic row desk
unfolding Enforcement.audit
traffic-IsPolicyRows = record {
  is_normal = desk_normal;
  is_address = desk_address;
  find_own = λ s e h. (cc, cc);
  discover_own = λ discover given. absurd (cc);
  upsert_own = λ input s t e h of_mac. cc;
  write_row = traffic-write;
  discover_keeps = λ discover given. absurd (cc);
  upsert_keeps = λ input. record { kept = λ s k. refl };
  limit_keeps = limits;
  clear_keeps = clears;
  clear_base_keeps = record { kept = λ s k. refl };
  audit_keeps = λ action e details. record { kept = λ s k. refl };
}
  where
    limits :
        (direction : Direction) (e : Device) (rate : ℤ)
        → Keeps row (limit traffic.enforcer direction e rate)
    limits download e rate = record { kept = λ s k. refl }
    limits upload e rate = record { kept = λ s k. refl }

    clears : (direction : Direction) (e : Device) → Keeps row (clear traffic.enforcer direction e)
    clears download e = record { kept = λ s k. refl }
    clears upload e = record { kept = λ s k. refl }

abbrev assigned : DevicePolicy
assigned = record two_megabits { profile_id = some 9 }

ran :
    reconcile services (some assigned)
    ≡ (ok tt, some (record assigned { download_limit = none; upload_limit = some 500 }))
unfolding reconcile Enforcement.clear_download Enforcement.limit_upload resolve_device_identifier
    is_resource_id is_digit MacAddress.create MacAddress.is_mac MacAddress.normalize_mac to_lower
    trim is_hex patched validate
ran = refl

reconcile-change_example :
    row (some (record assigned { download_limit = none; upload_limit = some 500 })) 7
    ≡ changes (change (night ∷ [])) (desk ∷ []) 7 (row (some assigned) 7)
reconcile-change_example =
    reconcile-change services traffic 0 refl row services-reads (night ∷ []) (desk ∷ [])
      (some assigned) (some (record assigned { download_limit = none; upload_limit = some 500 }))
      refl refl (traffic-IsPolicyRows, tt) ran 7
