-- ===== src/Accounting/Tests.antt =====
-- Runs of traffic accounting on a history in memory, and the theorems at concrete inputs.
use ayad_network_manager.Base.{ℕ, ◌+◌, ◌≡◌, refl, none, some, [], ◌∷◌, codes, nat_eq, true}
use ayad_network_manager.Base.Effects.{ok, pure}
use ayad_network_manager.Domain.TcClassId.{download}
use ayad_network_manager.Domain.Device.{Device, dhcp}
use ayad_network_manager.Accounting.{
  Usage, PreviousUsage, Accounting, Services, calculate_rate, flush_expired_history_buckets, stop,
}
use ayad_network_manager.Accounting.Ledger.{IsLedger}
use ayad_network_manager.Accounting.Bytes.{balance, flush-balance}

-- The downloaded bytes of the history, and what the counters of every device read.
abbrev History : Type 0
History = ℕ × Usage

abbrev services : Services History
services = record {
  find_by_mac = λ m s. ok none;
  discover = pure [];
  reconcile_device_accounting = λ l. pure tt;
  read_device_usage = λ mac s. ok s.1;
  accumulate_bucket = λ x s. (ok tt, (s.0 + x.usage.download_bytes, s.1));
  record_usage = λ mac d u timestamp. pure tt;
}

services-IsLedger : IsLedger services download (λ s. s.0)
services-IsLedger = record {
  taken = λ x s h. refl;
  refused = λ x s e h. absurd (cc);
  usage_apart = λ mac d u timestamp s. refl;
}

abbrev laptop : Device
laptop = record {
  id = 7;
  mac = record { value = codes "02:00:00:00:00:07" };
  ip = none;
  hostname = none;
  l2_visible = true;
  proxy_mac = none;
  identity_validated = true;
  identity_source = dhcp;
  first_seen = 0;
  last_seen = 0;
}

abbrev usage : ℕ → ℕ → Usage
usage d u = record { download_bytes = d; upload_bytes = u }

abbrev last_sample : PreviousUsage
last_sample = record { usage = usage 500 10; timestamp = 59000 }

-- A bucket of the minute before waits.
abbrev accounting : Accounting
accounting = record {
  previous = (7, last_sample) ∷ [];
  pending_buckets =
      (
        7,
        record {
          bucket_start = 0;
          usage = usage 400 10;
          first_timestamp = 1000;
          last_timestamp = 59000;
        },
      )
      ∷ [];
  live = [];
  last_accounting_reconcile_at = 1000;
}

rate_run : calculate_rate 3000 2000 ≡ some 1500
unfolding calculate_rate
rate_run = refl

flush-balance_example :
    (balance services services-IsLedger
        (flush_expired_history_buckets services 61000 (accounting, (0, usage 900 20))).1
      ≡ balance services services-IsLedger (accounting, (0, usage 900 20)))
    × (balance services services-IsLedger (stop services (accounting, (0, usage 900 20))).1
        ≡ balance services services-IsLedger (accounting, (0, usage 900 20)))
flush-balance_example =
    flush-balance services services-IsLedger 61000 (accounting, (0, usage 900 20))
