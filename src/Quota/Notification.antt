-- ===== src/Quota/Notification.antt =====
-- `notifyThresholds` of backend/src/application/quota/QuotaService.ts.
use ayad_network_manager.Base.{
  ℕ, ◌*◌, ◌||◌, ◌∷◌, ◌++◌, Text, codes, ltb, ◌==◌, nat_eq, text_eq, if◌then◌else◌, any,
}
use ayad_network_manager.Base.Effects.{ok, pure, ◌>>◌}
use ayad_network_manager.Text.Numerals.{to_decimal}
use ayad_network_manager.Ports.{Call}
use ayad_network_manager.Quota.{Key, same_key, Services, Notified, outer}

module _ {S : Type 0} (env : Services S) where
  abbrev pub threshold_message : Text → ℕ → Text
  threshold_message mac threshold =
      codes "Device "
      ++ (mac ++ (codes " reached " ++ (to_decimal threshold ++ codes "% of its traffic quota.")))

  -- One round of `notifyThresholds`.
  unfoldable pub notify_threshold : ℕ → Text → ℕ → ℕ → ℕ → ℕ → Call (Notified × S) (Unit {0})
  notify_threshold id mac quota used period_start threshold (keys, s) =
      let key : Key = (id, (period_start, threshold)) in
      if ltb (used * 100) (quota * threshold) || any (same_key key) keys
      then (ok tt, (keys, s))
      else outer
          (env.create_notification id (codes "quota-" ++ to_decimal threshold)
            (threshold_message mac threshold))
          (key ∷ keys, s)

  unfoldable pub notify_thresholds : ℕ → Text → ℕ → ℕ → ℕ → Call (Notified × S) (Unit {0})
  notify_thresholds id mac quota used period_start =
      if quota == 0
      then pure tt
      else (notify_threshold id mac quota used period_start 80
          >> (notify_threshold id mac quota used period_start 90
              >> notify_threshold id mac quota used period_start 100))
