-- ===== src/Policies/Held.antt =====
-- What the schedules do to the addresses that the kernel blocks.
use ayad_network_manager.Base.{
  ℕ, Bool, true, false, not, ◌&&◌, ◌||◌, none, ◌≡◌, refl, ◌∙◌, sym, ap, ◌↔◌, Text, ◌==◌, nat_eq,
  text_eq, text_beq_iff, if◌then◌else◌, arith,
}
use ayad_network_manager.Base.Effects.{ok, bind_step, bind_ok}
use ayad_network_manager.Base.Frame.{Keeps}
use ayad_network_manager.Errors.{scheduled_block_needs_ip}
use ayad_network_manager.Domain.MacAddress
use ayad_network_manager.Ports.{lift, or_throw, call_if}
use ayad_network_manager.Firewall.Kernel.{IsCanonical, IsBlocker}
use ayad_network_manager.Policies.Schedule.{
  Target, mac, ip, same_target, Services, switch_target, audit_target, enforce_target,
}

-- Whether the kernel blocks a target.
abbrev pub held : {S : Type 0} → (S → Text → Bool) → (S → Text → Bool) → S → Target → Bool
held macs ips s (mac a) = macs s a
held macs ips s (ip a) = ips s a

abbrev pub IsNormal : Target → Type 0
IsNormal (mac a) = IsCanonical a
IsNormal (ip a) = Unit {0}

pub same_target_iff : (a b : Target) → (same_target a b ≡ true) ↔ (a ≡ b)
unfolding same_target
same_target_iff (mac a) (mac b) = ground (arith, text_beq_iff a b)
same_target_iff (ip a) (ip b) = ground (arith, text_beq_iff a b)
same_target_iff (mac a) (ip b) = ground arith
same_target_iff (ip a) (mac b) = ground arith

-- Audits and traffic limits leave the blocks of the kernel as they are.
pub record IsApart {S : Type 0} (env : Services S) (macs ips : S → Text → Bool) : Type 0 where
  pub audit_keeps : (at : Target) (b : Bool) → Keeps (held macs ips) (audit_target env at b)
  pub limit_download_keeps :
      (m : Text) (rate : ℕ) → Keeps (held macs ips) (env.traffic.limit_download m rate)
  pub limit_upload_keeps :
      (m : Text) (rate : ℕ) → Keeps (held macs ips) (env.traffic.limit_upload m rate)
  pub clear_download_keeps : (m : Text) → Keeps (held macs ips) (env.traffic.clear_download m)
  pub clear_upload_keeps : (m : Text) → Keeps (held macs ips) (env.traffic.clear_upload m)

module _ {S : Type 0} (env : Services S) {macs ips : S → Text → Bool}
    (kernel : IsBlocker (env.blocker) macs ips) (others : IsApart env macs ips) where
  block_run :
      (a : Text) (s : S)
      → IsCanonical a
      → switch_target env (mac a) true s ≡ env.blocker.block (record { value = a }) none s
  unfolding switch_target
  block_run a s c =
      bind_step (lift (MacAddress.create a)) (λ m. env.blocker.block m none)
        {a = record { value = a }} (ap (λ r. (r, s)) c)

  unblock_run :
      (a : Text) (s : S)
      → IsCanonical a
      → switch_target env (mac a) false s ≡ env.blocker.unblock (record { value = a }) none s
  unfolding switch_target
  unblock_run a s c =
      bind_step (lift (MacAddress.create a)) (λ m. env.blocker.unblock m none)
        {a = record { value = a }} (ap (λ r. (r, s)) c)

  block_ip_run : (a : Text) (s : S) → switch_target env (ip a) true s ≡ kernel.block_ip a s
  unfolding switch_target
  block_ip_run a s =
      bind_step (or_throw env.blocker.block_ip scheduled_block_needs_ip) (λ block_ip. block_ip a)
        (ap (λ o. or_throw o scheduled_block_needs_ip s) kernel.has_block_ip)

  unblock_ip_run : (a : Text) (s : S) → switch_target env (ip a) false s ≡ kernel.unblock_ip a s
  unfolding switch_target
  unblock_ip_run a s = ap (λ o. call_if o a s) (kernel.has_unblock_ip)

  added : (here was : Bool) → (here || was) ≡ (if here then true else was)
  added true was = refl
  added false was = refl

  removed : (here was : Bool) → (not here && was) ≡ (if here then false else was)
  removed true was = refl
  removed false was = refl

  switch_target-held :
      (at : Target) (b : Bool) (s t : S)
      → IsNormal at
      → switch_target env at b s ≡ (ok tt, t)
      → (x : Target) → held macs ips t x ≡ (if same_target at x then b else held macs ips s x)
  unfolding same_target
  switch_target-held (mac a) true s t c h (mac x) =
      let run = sym (block_run a s c) ∙ h in
      ap (λ r. macs (r.1) x) (sym run)
      ∙ kernel.block_macs (record { value = a }) s (ap (λ r. r.0) run) x
      ∙ added (a == x) (macs s x)
  switch_target-held (mac a) true s t c h (ip x) =
      let run = sym (block_run a s c) ∙ h in
      ap (λ r. ips (r.1) x) (sym run)
      ∙ kernel.block_ips (record { value = a }) s (ap (λ r. r.0) run) x
  switch_target-held (mac a) false s t c h (mac x) =
      let run = sym (unblock_run a s c) ∙ h in
      ap (λ r. macs (r.1) x) (sym run)
      ∙ kernel.unblock_macs (record { value = a }) s (ap (λ r. r.0) run) x
      ∙ removed (a == x) (macs s x)
  switch_target-held (mac a) false s t c h (ip x) =
      let run = sym (unblock_run a s c) ∙ h in
      ap (λ r. ips (r.1) x) (sym run)
      ∙ kernel.unblock_ips (record { value = a }) s (ap (λ r. r.0) run) x
  switch_target-held (ip a) true s t c h (mac x) =
      let run = sym (block_ip_run a s) ∙ h in
      ap (λ r. macs (r.1) x) (sym run) ∙ kernel.block_ip_macs a s (ap (λ r. r.0) run) x
  switch_target-held (ip a) true s t c h (ip x) =
      let run = sym (block_ip_run a s) ∙ h in
      ap (λ r. ips (r.1) x) (sym run)
      ∙ kernel.block_ip_ips a s (ap (λ r. r.0) run) x
      ∙ added (a == x) (ips s x)
  switch_target-held (ip a) false s t c h (mac x) =
      let run = sym (unblock_ip_run a s) ∙ h in
      ap (λ r. macs (r.1) x) (sym run) ∙ kernel.unblock_ip_macs a s (ap (λ r. r.0) run) x
  switch_target-held (ip a) false s t c h (ip x) =
      let run = sym (unblock_ip_run a s) ∙ h in
      ap (λ r. ips (r.1) x) (sym run)
      ∙ kernel.unblock_ip_ips a s (ap (λ r. r.0) run) x
      ∙ removed (a == x) (ips s x)

  -- A target that is enforced is blocked as asked, and no other target changes.
  pub enforce_target-held :
      (at : Target) (b : Bool) (s t : S)
      → IsNormal at
      → enforce_target env at b s ≡ (ok tt, t)
      → (x : Target) → held macs ips t x ≡ (if same_target at x then b else held macs ips s x)
  unfolding enforce_target
  enforce_target-held at b s t c h x =
      let (_, u, switched, audited) =
        bind_ok (switch_target env at b) (λ _. audit_target env at b) h in
      ap (λ r. held macs ips (r.1) x) (sym audited)
      ∙ (others.audit_keeps at b).kept u x
      ∙ switch_target-held at b s u c switched x
