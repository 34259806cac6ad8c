-- ===== src/Firewall/PolicyKept.antt =====
-- What leaves the administrator's block of a device as it is.
use ayad_network_manager.Base.{
  ℕ, Bool, true, false, not, ◌≡◌, refl, Option, some, none, List, [], ◌∷◌, Text, nat_eq, text_eq,
  if◌then◌else◌, Bool-cases, Option-cases, inl, inr,
}
use ayad_network_manager.Base.Effects.{pure, throw, ◌>>=◌, ◌>>◌}
use ayad_network_manager.Base.Frame.{Keeps, Keeps-bind, Keeps-catch, Keeps-for_each}
use ayad_network_manager.Errors.{Error, no_ip_enforcement}
use ayad_network_manager.Domain.Device.{Device}
use ayad_network_manager.Ports.{Call, Read, ask, or_throw, throw_if, AuditEntry}
use ayad_network_manager.Firewall.{
  Collaborators, is_blocked, resolve_device_identifier, resolve, audited, audit, enforce_block,
  quota_block, block_for_quota, quota_unblock, unblock_own_ip, quota_release, unblock_for_quota,
  active_ips, ip_text,
}
use ayad_network_manager.Firewall.Stores.{IsPolicyView}

module _ {S : Type 0} (env : Collaborators S) {blocked : S → ℕ → Bool}
    (view : IsPolicyView env blocked) where
  -- Guards and reads.
  throw_if-Keeps : (c : Bool) (e : Error) → Keeps {S = S} {A = Unit {0}} blocked (throw_if c e)
  throw_if-Keeps true e = record { kept = λ s k. refl }
  throw_if-Keeps false e = record { kept = λ s k. refl }

  throw-Keeps : (e : Error) → Keeps {S = S} {A = Unit {0}} blocked (throw e)
  throw-Keeps e = record { kept = λ s k. refl }

  or_throw-Keeps : {A : Type 0} (o : Option A) (e : Error) → Keeps {S = S} blocked (or_throw o e)
  or_throw-Keeps none e = record { kept = λ s k. refl }
  or_throw-Keeps (some a) e = record { kept = λ s k. refl }

  pub ask-Keeps : {A : Type 0} (r : Read S A) → Keeps blocked (ask r)
  ask-Keeps r = record { kept = λ s k. refl }

  resolve-Keeps : (mac : Text) → Keeps blocked (resolve env mac)
  unfolding resolve
  resolve-Keeps mac =
      Keeps-bind blocked (ask-Keeps (resolve_device_identifier env.devices mac))
        (λ found. or_throw-Keeps found _)

  pub enforce_block-Keeps : (d : Device) → Keeps blocked (enforce_block env d)
  unfolding enforce_block
  enforce_block-Keeps d = elim (Bool-cases (d.l2_visible)) [
    | inl seen ↦ rw seen (view.block_keeps d.mac none)
    | inr hidden ↦ rw hidden (
        Keeps-bind blocked (or_throw-Keeps (ip_text d) _)
          (λ ip. by_ip (env.blocker.block_ip) refl ip))
  ]
    where
      by_ip :
          (f : Option (Text → Call S (Unit {0})))
          → env.blocker.block_ip ≡ f
          → (ip : Text) → Keeps blocked (or_throw f no_ip_enforcement >>= λ block_ip. block_ip ip)
      by_ip none e ip = record { kept = λ s k. refl }
      by_ip (some f) e ip = rw e at (view.block_ip_keeps ip)

  pub audit_throw-Keeps :
      (entry : AuditEntry) (e : Error)
      → Keeps {S = S} {A = Unit {0}} blocked (audited env entry >> throw e)
  audit_throw-Keeps entry e = Keeps-bind blocked (view.audit_keeps entry) (λ _. throw-Keeps e)

  quota_block-Keeps : (d : Device) → Keeps blocked (quota_block env d)
  unfolding quota_block audit
  quota_block-Keeps d =
      Keeps-catch blocked
        (Keeps-bind blocked (enforce_block-Keeps d) (λ _.
          Keeps-bind blocked (view.record_keeps d.id _ (ip_text d) _) (λ _. view.audit_keeps _)))
        (λ e. audit_throw-Keeps _ e)

  block_for_quota-Keeps : (mac : Text) → Keeps blocked (block_for_quota env mac)
  unfolding block_for_quota
  block_for_quota-Keeps mac = Keeps-bind blocked (resolve-Keeps mac) (λ d.
      Keeps-bind blocked (throw_if-Keeps (not d.identity_validated) _) (λ _. quota_block-Keeps d))

  unblock_own_ip-Keeps : (d : Device) (ips : List Text) → Keeps blocked (unblock_own_ip env d ips)
  unfolding unblock_own_ip
  unblock_own_ip-Keeps d [] = elim (Option-cases (ip_text d)) [
    | inl without ↦ rw (without, unblock_own_ip) (record { kept = λ s k. refl })
    | inr (ip, known) ↦ rw (known, unblock_own_ip) (view.unblock_ip_keeps ip)
  ]
  unblock_own_ip-Keeps d (x ∷ l) = record { kept = λ s k. refl }

  quota_unblock-Keeps : (d : Device) → Keeps blocked (quota_unblock env d)
  unfolding quota_unblock
  quota_unblock-Keeps d = elim (Bool-cases (d.l2_visible)) [
    | inl seen ↦ rw seen (view.unblock_keeps d.mac (ip_text d))
    | inr hidden ↦ rw hidden (
        Keeps-bind blocked (ask-Keeps (active_ips env d.id)) (λ ips.
          Keeps-bind blocked (Keeps-for_each blocked ips view.unblock_ip_keeps)
            (λ _. unblock_own_ip-Keeps d ips)))
  ]

  quota_release-Keeps : (d : Device) → Keeps blocked (quota_release env d)
  unfolding quota_release audit
  quota_release-Keeps d =
      Keeps-bind blocked (quota_unblock-Keeps d)
        (λ _. Keeps-bind blocked (view.release_keeps d.id) (λ _. view.audit_keeps _))

  unless_blocked-Keeps :
      (b : Bool) (d : Device) → Keeps blocked (if b then pure tt else quota_release env d)
  unless_blocked-Keeps true d = record { kept = λ s k. refl }
  unless_blocked-Keeps false d = quota_release-Keeps d

  unblock_for_quota-Keeps : (mac : Text) → Keeps blocked (unblock_for_quota env mac)
  unfolding unblock_for_quota
  unblock_for_quota-Keeps mac = Keeps-bind blocked (resolve-Keeps mac) (λ d.
      Keeps-bind blocked (ask-Keeps (env.policies.find_by_device_id d.id))
        (λ policy. unless_blocked-Keeps (is_blocked policy) d))

  -- With stores that keep the laws of IsPolicyView, the quota's block and unblock, whether they end
  -- well or throw, leave the administrator's block of every device as it is.
  pub quota_keeps_policy :
      (mac : Text) (s : S) (k : ℕ)
      → (blocked (block_for_quota env mac s).1 k ≡ blocked s k)
        × (blocked (unblock_for_quota env mac s).1 k ≡ blocked s k)
  quota_keeps_policy mac s k =
      ((block_for_quota-Keeps mac).kept s k, (unblock_for_quota-Keeps mac).kept s k)
