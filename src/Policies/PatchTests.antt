-- ===== src/Policies/PatchTests.antt =====
-- Upserts of a device's policy, and the theorems there.
use ayad_network_manager.Base.{ℕ, none, some, [], ◌∷◌, ◌≡◌, refl, codes, nat_eq, text_eq}
use ayad_network_manager.Base.Int.{pos, negsuc}
use ayad_network_manager.Base.Effects.{ok, err, pure}
use ayad_network_manager.Errors.{negative_quota}
use ayad_network_manager.Text.{is_digit}
use ayad_network_manager.Text.Numerals.{read}
use ayad_network_manager.Domain.Device.{DevicePolicy}
use ayad_network_manager.Ports.{Call, PolicyChange}
use ayad_network_manager.Firewall.{resolve_device_identifier, is_resource_id}
use ayad_network_manager.Traffic.Memory.{desk, two_megabits}
use ayad_network_manager.Policies.{ProfileRecord, PolicyCatalogRepository}
use ayad_network_manager.Policies.Patch.{
  Services, Patch, to_policy_data, is_id, upsert_device_policy,
}
use ayad_network_manager.Policies.Patched.{patched, IsPolicyStore, Follows, explicit_values_win}
use ayad_network_manager.Policies.Refused.{refused_writes_nothing}

abbrev evening : ProfileRecord
evening = record {
  id = 9;
  name = codes "evening";
  description = none;
  download_limit = some 1500;
  upload_limit = some 500;
  quota = none;
  quota_period = some (codes "daily");
}

abbrev catalog : PolicyCatalogRepository DevicePolicy
catalog = record { profiles = λ s. ok (evening ∷ []); schedules = λ s. ok [] }

abbrev write : ℕ → PolicyChange → Call DevicePolicy DevicePolicy
write id change p = (ok (patched change p), patched change p)

-- The state is the policy of the only device.
abbrev services : Services DevicePolicy
services = record {
  devices = record {
    find_by_mac = λ m s. ok (some desk);
    find_by_id = λ id s. ok (some desk);
    find_all = λ s. ok (desk ∷ []);
    update = λ id change. pure tt;
  };
  policies = record {
    find_by_device_id = λ id p. ok (some p);
    upsert = λ id change p. (ok tt, patched change p);
  };
  upsert = write;
  catalog = some catalog;
  reconcile_policy = none;
}

-- A profile with a download limit of the device's own.
abbrev own_download : Patch
own_download = record {
  blocked = none;
  download_limit = some (some 2500);
  upload_limit = none;
  quota = none;
  quota_period = none;
  quota_action = none;
  quota_enforced_action = none;
  profile_id = some (some (pos 9));
  schedule_id = none;
}

abbrev after : DevicePolicy
after = record two_megabits {
  download_limit = some 2500;
  upload_limit = some 500;
  quota = none;
  quota_period = some (codes "daily");
  profile_id = some 9;
}

upserted :
    upsert_device_policy services (codes "7") own_download two_megabits
    ≡ (ok (to_policy_data after), after)
unfolding upsert_device_policy resolve_device_identifier is_resource_id is_digit read is_id patched
upserted = refl

services-IsPolicyStore : IsPolicyStore services (λ s k. s)
unfolding patched
services-IsPolicyStore = record { upsert_answers = λ id change s t p h. cc }

explicit_values_win_example : Follows own_download evening (to_policy_data after)
explicit_values_win_example =
    explicit_values_win services services-IsPolicyStore (codes "7") own_download (pos 9) catalog
      (evening ∷ []) evening two_megabits after (to_policy_data after) refl refl (λ u. refl) refl
      upserted

abbrev negative : Patch
negative = record own_download { quota = some (some (negsuc 0)) }

refused : (upsert_device_policy services (codes "7") negative two_megabits).0 ≡ err negative_quota
unfolding upsert_device_policy resolve_device_identifier is_resource_id is_digit read is_id patched
refused = refl

refused_writes_nothing_example :
    (upsert_device_policy services (codes "7") negative two_megabits).1 ≡ two_megabits
refused_writes_nothing_example =
    refused_writes_nothing services (codes "7") negative two_megabits negative_quota
      (λ id change s. (patched change s, patched change s, refl)) (λ f e. absurd (cc)) refused
