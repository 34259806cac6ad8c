-- ===== src/Quota/Enforcement.antt =====
-- The actions of an exhausted quota: `enforceQuotaAction` and `clearQuotaEnforcement` of
-- backend/src/application/quota/QuotaService.ts.
use ayad_network_manager.Base.{
  ℕ, Bool, false, Option, none, some, [], ◌∷◌, ◌++◌, Text, codes, ◌==◌, nat_eq, text_eq,
  if◌then◌else◌,
}
use ayad_network_manager.Base.Effects.{pure, ◌>>=◌, ◌>>◌}
use ayad_network_manager.Ports.{Call, ask, PolicyChange, no_change}
use ayad_network_manager.Quota.{
  QuotaAction, notify_only, throttle, block, action_text, normalize_action, Services,
}

module _ {S : Type 0} (env : Services S) where
  open env use {policies}

  unfoldable pub enforced : Option Text → PolicyChange
  enforced action = record no_change { quota_enforced_action = some action }

  abbrev pub is_enforced : Option Text → Text → Bool
  is_enforced none action = false
  is_enforced (some a) action = a == action

  unfoldable pub clear_quota_enforcement : ℕ → Text → Option Text → Call S (Unit {0})
  unfolding enforced
  clear_quota_enforcement id mac action = do
    if is_enforced action (codes "throttle") then env.clear_quota_throttle mac else pure tt
    if is_enforced action (codes "block") then env.unblock_for_quota mac else pure tt
    policies.upsert id (enforced none)

  -- `if (policy.quotaEnforcedAction) await this.clearQuotaEnforcement(...)`
  unfoldable pub clear_stale : ℕ → Text → Option Text → Call S (Unit {0})
  unfolding clear_quota_enforcement
  clear_stale id mac none = pure tt
  clear_stale id mac (some []) = pure tt
  clear_stale id mac (some (c ∷ a)) = clear_quota_enforcement id mac (some (c ∷ a))

  abbrev pub exhausted_message : Text → Text
  exhausted_message mac = codes "Device " ++ (mac ++ codes " has exhausted its traffic quota.")

  unfoldable pub perform : ℕ → Text → QuotaAction → Call S (Unit {0})
  perform id mac notify_only =
      env.create_notification id (codes "quota-exhausted") (exhausted_message mac)
  perform id mac throttle = env.apply_quota_throttle mac
  perform id mac block = env.block_for_quota mac

  unfoldable pub enforce_action : ℕ → Text → Option Text → QuotaAction → Call S (Unit {0})
  unfolding clear_stale perform enforced
  enforce_action id mac before action =
      if is_enforced before (action_text action)
      then pure tt
      else (clear_stale id mac before
          >> (perform id mac action >> policies.upsert id (enforced (some (action_text action)))))

  unfoldable pub enforce_quota_action : ℕ → Text → Call S (Unit {0})
  unfolding enforce_action clear_quota_enforcement
  enforce_quota_action id mac = do
    found ← ask (policies.find_by_device_id id)
    elim found [
      | none ↦ pure tt
      | some policy ↦ elim (normalize_action policy.quota_action) [
        | none ↦ clear_quota_enforcement id mac policy.quota_enforced_action
        | some action ↦ enforce_action id mac policy.quota_enforced_action action
      ]
    ]
