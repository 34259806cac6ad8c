-- ===== src/Quota/Once.antt =====
-- `enforceQuotaAction` performs an action once, with what it relies on of the policy store.
use ayad_network_manager.Base.{
  ℕ, Bool, true, false, ◌≡◌, refl, sym, ap, ◌∙◌, Option, none, some, Text, codes, text_eq, eq_refl,
  if◌then◌else◌, Bool-cases, inl, inr, ◌⊎◌, [], ◌∷◌,
}
use ayad_network_manager.Base.Effects.{ok, pure, ◌>>◌, bind_ok, bind_step}
use ayad_network_manager.Base.Frame.{Keeps, Keeps-bind}
use ayad_network_manager.Domain.Device.{DevicePolicy}
use ayad_network_manager.Ports.{Call, ask, ask_ok}
use ayad_network_manager.Quota.{
  QuotaAction, notify_only, throttle, block, action_text, normalize_action, Services,
}
use ayad_network_manager.Quota.Enforcement.{
  enforced, is_enforced, clear_quota_enforcement, clear_stale, perform, enforce_action,
  enforce_quota_action,
}

-- The quota action of every device, as `action s`: a policy that is found has it, recording which
-- action is enforced leaves it, and so do the calls of the other collaborators.
pub record IsQuotaStore {S : Type 0} (env : Services S) (action : S → ℕ → Option Text)
    : Type 0 where
  pub find_action :
      (id : ℕ) (s : S) (p : DevicePolicy)
      → env.policies.find_by_device_id id s ≡ ok (some p)
      → p.quota_action ≡ action s id
  pub upsert_found :
      (id : ℕ) (e : Option Text) (s t : S)
      → env.policies.upsert id (enforced env e) s ≡ (ok tt, t)
      → (p : DevicePolicy) × (env.policies.find_by_device_id id t ≡ ok (some p))
        × (p.quota_enforced_action ≡ e)
  pub upsert_keeps :
      (id : ℕ) (e : Option Text) → Keeps action (env.policies.upsert id (enforced env e))
  pub apply_keeps : (mac : Text) → Keeps action (env.apply_quota_throttle mac)
  pub clear_keeps : (mac : Text) → Keeps action (env.clear_quota_throttle mac)
  pub block_keeps : (mac : Text) → Keeps action (env.block_for_quota mac)
  pub unblock_keeps : (mac : Text) → Keeps action (env.unblock_for_quota mac)
  pub notification_keeps :
      (id : ℕ) (kind message : Text) → Keeps action (env.create_notification id kind message)

module _ {S : Type 0} (env : Services S) {action : S → ℕ → Option Text}
    (store : IsQuotaStore env action) (id : ℕ) (mac : Text) where
  when-Keeps :
      (c : Bool) {m : Call S (Unit {0})} → Keeps action m → Keeps action (if c then m else pure tt)
  when-Keeps true h = h
  when-Keeps false h = record { kept = λ s k. refl }

  clear_quota_enforcement-Keeps :
      (a : Option Text) → Keeps action (clear_quota_enforcement env id mac a)
  unfolding clear_quota_enforcement
  clear_quota_enforcement-Keeps a =
      Keeps-bind action (when-Keeps (is_enforced env a (codes "throttle")) (store.clear_keeps mac))
        (λ _.
          Keeps-bind action
            (when-Keeps (is_enforced env a (codes "block")) (store.unblock_keeps mac))
            (λ _. store.upsert_keeps id none))

  clear_stale-Keeps : (a : Option Text) → Keeps action (clear_stale env id mac a)
  unfolding clear_stale
  clear_stale-Keeps none = record { kept = λ s k. refl }
  clear_stale-Keeps (some []) = record { kept = λ s k. refl }
  clear_stale-Keeps (some (c ∷ a)) = clear_quota_enforcement-Keeps (some (c ∷ a))

  perform-Keeps : (a : QuotaAction) → Keeps action (perform env id mac a)
  unfolding perform
  perform-Keeps notify_only = store.notification_keeps id _ _
  perform-Keeps throttle = store.apply_keeps mac
  perform-Keeps block = store.block_keeps mac

  enforce_action-Keeps :
      (before : Option Text) (a : QuotaAction) → Keeps action (enforce_action env id mac before a)
  unfolding enforce_action
  enforce_action-Keeps before a = elim (Bool-cases (is_enforced env before (action_text a))) [
    | inl done ↦ rw (done, enforce_action) (record { kept = λ s k. refl })
    | inr stale ↦
        rw (stale, enforce_action)
          (Keeps-bind action (clear_stale-Keeps before) (λ _.
            Keeps-bind action (perform-Keeps a)
              (λ _. store.upsert_keeps id (some (action_text a)))))
  ]

  -- What `enforceQuotaAction` does after its read.
  abbrev after_read : Option DevicePolicy → Call S (Unit {0})
  after_read none = pure tt
  after_read (some policy) = elim (normalize_action policy.quota_action) [
    | none ↦ clear_quota_enforcement env id mac policy.quota_enforced_action
    | some a ↦ enforce_action env id mac policy.quota_enforced_action a
  ]

  -- The action of the policy that is found.
  enforce_quota_action-found :
      (s : S) (p : DevicePolicy) (a : QuotaAction)
      → env.policies.find_by_device_id id s ≡ ok (some p)
      → normalize_action (p.quota_action) ≡ some a
      → enforce_quota_action env id mac s ≡ enforce_action env id mac (p.quota_enforced_action) a s
  unfolding enforce_quota_action
  enforce_quota_action-found s p a found known =
      bind_step (ask (env.policies.find_by_device_id id)) after_read (ap (λ r. (r, s)) found)
      ∙ ap
          (λ o.
            (elim o as (λ _. Call S (Unit {0})) [
              | none ↦ clear_quota_enforcement env id mac (p.quota_enforced_action)
              | some b ↦ enforce_action env id mac (p.quota_enforced_action) b
            ])
              s)
          known

  enforce_action-again :
      (a : QuotaAction) (t : S) → enforce_action env id mac (some (action_text a)) a t ≡ (ok tt, t)
  unfolding enforce_action
  enforce_action-again a t = rw (eq_refl (action_text a), enforce_action) refl

  -- An action that ended well is the one that the policy records, or it was before and nothing is
  -- done.
  enforce_action-recorded :
      (before : Option Text) (a : QuotaAction) (s t : S)
      → enforce_action env id mac before a s ≡ (ok tt, t)
      → (s ≡ t)
        ⊎ ((p : DevicePolicy) × (env.policies.find_by_device_id id t ≡ ok (some p))
            × (p.quota_enforced_action ≡ some (action_text a)))
  unfolding enforce_action
  enforce_action-recorded before a s t h =
      elim (Bool-cases (is_enforced env before (action_text a))) [
        | inl done ↦ inl (ap (λ r. r.1) (rw (done, enforce_action) at h))
        | inr stale ↦
            let record_it = env.policies.upsert id (enforced env (some (action_text a))) in
            let (_, u, _, rest) =
              bind_ok (clear_stale env id mac before) (λ _. perform env id mac a >> record_it)
                (rw (stale, enforce_action) at h) in
            let (_, v, _, recorded) = bind_ok (perform env id mac a) (λ _. record_it) rest in
            inr (store.upsert_found id (some (action_text a)) v t recorded)
      ]

  -- With stores that keep the laws of IsQuotaStore, and a device whose policy has a quota action:
  -- once `enforceQuotaAction` ended well, calling it again changes nothing, so that the action is
  -- neither performed nor cleared a second time.
  pub enforce_quota_action-once :
      (a : QuotaAction) (s t : S)
      → normalize_action (action s id) ≡ some a
      → enforce_quota_action env id mac s ≡ (ok tt, t)
      → enforce_quota_action env id mac t ≡ (ok tt, t)
  unfolding enforce_quota_action
  enforce_quota_action-once a s t known h =
      let (found, read, rest) = ask_ok (env.policies.find_by_device_id id) after_read h in
      again found read rest
    where
      unchanged : s ≡ t → enforce_quota_action env id mac t ≡ (ok tt, t)
      unchanged e = ap (enforce_quota_action env id mac) (sym e) ∙ h

      recorded :
          (p : DevicePolicy)
          → env.policies.find_by_device_id id s ≡ ok (some p)
          → (q : DevicePolicy) → env.policies.find_by_device_id id t ≡ ok (some q)
          → q.quota_enforced_action ≡ some (action_text a)
          → enforce_quota_action env id mac s
            ≡ enforce_action env id mac (p.quota_enforced_action) a s
          → enforce_quota_action env id mac t ≡ (ok tt, t)
      recorded p before q after enforced_as run =
          let kept : action t id ≡ action s id =
            ap (λ r. action (r.1) id) (sym (sym run ∙ h))
            ∙ (enforce_action-Keeps (p.quota_enforced_action) a).kept s id in
          enforce_quota_action-found t q a after
            (ap normalize_action (store.find_action id t q after ∙ kept) ∙ known)
          ∙ ap (λ e. enforce_action env id mac e a t) enforced_as
          ∙ enforce_action-again a t

      again :
          (found : Option DevicePolicy)
          → env.policies.find_by_device_id id s ≡ ok found
          → after_read found s ≡ (ok tt, t)
          → enforce_quota_action env id mac t ≡ (ok tt, t)
      again none read rest = unchanged (ap (λ r. r.1) rest)
      again (some p) read rest =
          let run =
            enforce_quota_action-found s p a read
              (ap normalize_action (store.find_action id s p read) ∙ known) in
          elim (enforce_action-recorded (p.quota_enforced_action) a s t (sym run ∙ h)) [
            | inl same ↦ unchanged same
            | inr (q, after, enforced_as) ↦ recorded p read q after enforced_as run
          ]
