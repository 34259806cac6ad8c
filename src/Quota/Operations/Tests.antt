-- ===== src/Quota/Operations/Tests.antt =====
-- A recorded usage, and the theorem there.
use ayad_network_manager.Base.{
  ℕ, ◌+◌, Option, none, some, [], ◌∷◌, ◌≡◌, refl, sym, codes, nat_eq, text_eq, text_beq,
}
use ayad_network_manager.Base.Effects.{ok, err, pure}
use ayad_network_manager.Errors.{call_failed}
use ayad_network_manager.Domain.Device.{DevicePolicy}
use ayad_network_manager.Ports.{Call}
use ayad_network_manager.Firewall.{resolve_device_identifier, is_resource_id}
use ayad_network_manager.Text.{is_digit, to_lower}
use ayad_network_manager.Text.Numerals.{read}
use ayad_network_manager.Traffic.Memory.{desk, two_megabits}
use ayad_network_manager.Quota.{QuotaPeriodData, QuotaView, build_view, Services}
use ayad_network_manager.Quota.Period.{calculate_period}
use ayad_network_manager.Quota.Notification.{notify_threshold}
use ayad_network_manager.Quota.Operations.{record_usage}
use ayad_network_manager.Quota.Operations.Current.{IsPeriodStore}
use ayad_network_manager.Quota.Operations.Counted.{Counts, record_usage-Counts}

-- The state is the only period that is stored.
abbrev Stored : Type 0
Stored = Option QuotaPeriodData

abbrev fresh : ℕ → ℕ → ℕ → QuotaPeriodData
fresh id start end = record {
  id = id;
  device_id = 7;
  period_type = codes "daily";
  period_start = start;
  period_end = end;
  used_download_bytes = 0;
  used_upload_bytes = 0;
}

abbrev increment : ℕ → ℕ → ℕ → Call Stored QuotaPeriodData
increment id download upload none = (err (call_failed []), none)
increment id download upload (some p) =
    let q = record p {
      used_download_bytes = p.used_download_bytes + download;
      used_upload_bytes = p.used_upload_bytes + upload;
    } in
    (ok q, some q)

abbrev daily : DevicePolicy
daily = record two_megabits { quota = some 1000; quota_period = some (codes "daily") }

abbrev services : Services Stored
services = record {
  devices = record {
    find_by_mac = λ m s. ok (some desk);
    find_by_id = λ id s. ok (some desk);
    find_all = λ s. ok (desk ∷ []);
    update = λ id change. pure tt;
  };
  policies = record { find_by_device_id = λ id s. ok (some daily); upsert = λ id change. pure tt };
  periods = record {
    find_current = λ id period_type at s. ok s;
    create = λ id period_type start end s. (ok (fresh 1 start end), some (fresh 1 start end));
    update_usage = increment;
    increment_usage = increment;
    reset = λ id start end s. (ok (fresh id start end), some (fresh id start end));
  };
  apply_quota_throttle = λ mac. pure tt;
  clear_quota_throttle = λ mac. pure tt;
  block_for_quota = λ mac. pure tt;
  unblock_for_quota = λ mac. pure tt;
  create_notification = λ id kind message. pure tt;
}

services-IsPeriodStore : IsPeriodStore services (λ s id. s)
services-IsPeriodStore = record {
  find_stored = λ id period_type at s p h. cc;
  create_stored = λ id period_type start end s t p h. (cc, cc, cc, cc, cc);
  reset_stored = λ id start end s t p h. (cc, cc, cc, cc, cc);
  increment_stored = λ id download upload s t p q is h. added download upload s t p q is h;
}
  where
    added :
        (download upload : ℕ) (s t : Stored) (p q : QuotaPeriodData)
        → s ≡ some p
        → increment 1 download upload s ≡ (ok q, t)
        → q ≡ record p {
          used_download_bytes = p.used_download_bytes + download;
          used_upload_bytes = p.used_upload_bytes + upload;
        }
    added download upload none t p q is h = absurd (cc)
    added download upload (some r) t p q is h = let same : r ≡ p = cc in rw (sym same) cc

-- The eleventh day of 1970.
abbrev today : QuotaPeriodData
today = record (fresh 1 864000000 950400000) { used_download_bytes = 400; used_upload_bytes = 100 }

abbrev counted : QuotaPeriodData
counted = record today { used_download_bytes = 700; used_upload_bytes = 150 }

recorded : record_usage services 864000005 (codes "7") 300 50 ([], some today) ≡ (
  ok (some (build_view 1000 (codes "daily") none counted)),
  ((7, (864000000, 80)) ∷ [], some counted),
)
unfolding record_usage resolve_device_identifier is_resource_id is_digit read calculate_period
    text_beq to_lower notify_threshold build_view
recorded = refl

seven : resolve_device_identifier services.devices (codes "7") (some today) ≡ ok (some desk)
unfolding resolve_device_identifier is_resource_id is_digit read
seven = refl

record_usage-Counts_example :
    (view : QuotaView) × (some (build_view 1000 (codes "daily") none counted) ≡ some view)
    × Counts 864000005 (some today) 1000 (codes "daily") 300 50 view
record_usage-Counts_example =
    record_usage-Counts services services-IsPeriodStore 864000005 (codes "7") 300 50 desk daily 1000
      (codes "daily") (some today) [] ((7, (864000000, 80)) ∷ []) (some today) (some counted)
      (some (build_view 1000 (codes "daily") none counted)) seven refl refl refl recorded
