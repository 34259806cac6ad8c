-- ===== src/Policies/Windows.antt =====
-- A device in its window is blocked as the rule says, and after it as its policy says.
use ayad_network_manager.Base.{
  ℕ, Bool, true, false, ◌&&◌, Option, none, some, ◌≡◌, refl, ◌∙◌, sym, ap, Text, ◌==◌, nat_eq,
  text_eq, bool_eq, bool_beq_iff, if◌then◌else◌, Bool-cases, inl, inr, ◌⊎◌, Option-cases, arith,
  eq_refl,
}
use ayad_network_manager.Base.Map.{lookup, lookup-insert, lookup-erase}
use ayad_network_manager.Base.Effects.{ok, pure, ◌>>◌, bind_ok}
use ayad_network_manager.Base.Frame.{Keeps, Keeps-bind, pure-Keeps}
use ayad_network_manager.Domain.Device.{Device, DevicePolicy}
use ayad_network_manager.Ports.{Call, beside}
use ayad_network_manager.Firewall.Kernel.{IsBlocker}
use ayad_network_manager.Policies.{ScheduleRuleRecord, or_else}
use ayad_network_manager.Policies.Schedule.{
  Target, same_target, ScheduledState, States, Services, target_for, asks_block, enforce_target,
  remember, forget, leave_target, enter, restore, settle_block, settle_limit, settle_limits,
  rule_limit, settle_known,
}
use ayad_network_manager.Policies.Held.{
  held, IsNormal, same_target_iff, IsApart, enforce_target-held,
}

-- The kernel still holds what the service remembers of a device.
abbrev pub Agrees : {S : Type 0} → (S → Target → Bool) → S → Option ScheduledState → Type 0
Agrees view s none = Unit {0}
Agrees view s (some previous) = (view s previous.at ≡ previous.blocked) × IsNormal previous.at

abbrev pub was_at : Option ScheduledState → Target → Bool
was_at none x = false
was_at (some previous) x = same_target previous.at x

module _ {S : Type 0} (env : Services S) {macs ips : S → Text → Bool}
    (kernel : IsBlocker (env.blocker) macs ips) (others : IsApart env macs ips) where
  -- Leaving a target for another one, and enforcing there.
  move-held :
      (previous : ScheduledState) (to : Target) (b : Bool) (s t : S)
      → IsNormal previous.at
      → IsNormal to
      → (leave_target env previous to >> enforce_target env to b) s ≡ (ok tt, t)
      → (x : Target)
      → held macs ips t x ≡ (
          if same_target to x
          then b
          else if same_target previous.at x
          then false
          else held macs ips s x)
  unfolding leave_target
  move-held previous to b s t c c' h x =
      let (_, u, left, entered) =
        bind_ok (leave_target env previous to) (λ _. enforce_target env to b) h in
      enforce_target-held env kernel others to b u t c' entered x
      ∙ elim (Bool-cases (same_target (previous.at) to)) [
        | inl stays ↦
            let same : previous.at ≡ to = (same_target_iff (previous.at) to).0 stays in
            ap (λ w. if same_target to x then b else held macs ips w x)
              (ap (λ r. r.1) (sym (rw (stays, leave_target) at left)))
            ∙ twice (same_target to x) (same_target previous.at x) (ap (λ o. same_target o x) same)
        | inr moves ↦
            ap (λ o. if same_target to x then b else o)
              (enforce_target-held env kernel others (previous.at) false s u c
                (rw (moves, leave_target) at left) x)
      ]
    where
      twice :
          (here there : Bool)
          → there ≡ here
          → (if here then b else held macs ips s x)
            ≡ (if here then b else if there then false else held macs ips s x)
      twice true there e = refl
      twice false true e = absurd (cc)
      twice false false e = refl

  enter-held :
      (previous : Option ScheduledState) (to : Target) (b : Bool) (s t : S)
      → Agrees (held macs ips) s previous
      → IsNormal to
      → enter env previous to b s ≡ (ok tt, t)
      → (x : Target)
      → held macs ips t x
        ≡ (if same_target to x then b else if was_at previous x then false else held macs ips s x)
  unfolding enter
  enter-held none to b s t agrees c h x = enforce_target-held env kernel others to b s t c h x
  enter-held (some previous) to b s t (holds, c') c h x =
      elim (Bool-cases (previous.blocked == b && same_target previous.at to)) [
        | inr changed ↦ move-held previous to b s t c' c (rw (changed, enter) at h) x
        | inl unchanged ↦
            let stays : same_target previous.at to ≡ true = ground arith in
            let as_asked : previous.blocked ≡ b =
              (bool_beq_iff (previous.blocked) b).0 (ground arith) in
            let same : previous.at ≡ to = (same_target_iff (previous.at) to).0 stays in
            ap (λ r. held macs ips (r.1) x) (sym (rw (unchanged, enter) at h))
            ∙ already (Bool-cases (same_target to x)) (ap (λ o. same_target o x) same)
                (ap (held macs ips s) (sym same) ∙ holds ∙ as_asked)
      ]
    where
      already :
          (same_target to x ≡ true) ⊎ (same_target to x ≡ false)
          → same_target previous.at x ≡ same_target to x
          → held macs ips s to ≡ b
          → held macs ips s x ≡ (
              if same_target to x
              then b
              else if same_target previous.at x
              then false
              else held macs ips s x)
      already (inl here) e holds' =
          rw here (ap (held macs ips s) (sym ((same_target_iff to x).0 here)) ∙ holds')
      already (inr other) e holds' = rw (other, e ∙ other) refl

  settle_limits-Keeps :
      (d : Device) (p : DevicePolicy) (active : Option ScheduleRuleRecord)
      → Keeps (held macs ips) (settle_limits env d p active)
  unfolding settle_limits settle_limit
  settle_limits-Keeps d p active = elim (Option-cases (d.ip)) [
    | inl without ↦ rw (without, settle_limits) (pure-Keeps (held macs ips) tt)
    | inr (address, known) ↦
        rw (known, settle_limits)
          (Keeps-bind (held macs ips)
            (limit-Keeps (or_else (rule_limit env active (λ r. r.download_limit)) p.download_limit)
              (p.download_limit) (others.limit_download_keeps d.mac.value)
              (others.clear_download_keeps d.mac.value))
            (λ _.
              limit-Keeps (or_else (rule_limit env active (λ r. r.upload_limit)) p.upload_limit)
                (p.upload_limit) (others.limit_upload_keeps d.mac.value)
                (others.clear_upload_keeps d.mac.value)))
  ]
    where
      limit-Keeps :
          {set_it : ℕ → Call S (Unit {0})} {clear_it : Call S (Unit {0})}
          (wanted of_policy : Option ℕ)
          → ((rate : ℕ) → Keeps (held macs ips) (set_it rate))
          → Keeps (held macs ips) clear_it
          → Keeps (held macs ips) (elim wanted as (λ _. Call S (Unit {0})) [
            | some rate ↦ set_it rate
            | none ↦ elim of_policy as (λ _. Call S (Unit {0})) [
              | none ↦ pure tt
              | some rate ↦ clear_it
            ]
          ])
      limit-Keeps (some rate) of_policy sets clears = sets rate
      limit-Keeps none none sets clears = pure-Keeps (held macs ips) tt
      limit-Keeps none (some rate) sets clears = clears

  beside_ok :
      {A : Type 0} (m : Call S A) (states : States) (s : S) (u : States × S) (a : A)
      → beside m (states, s) ≡ (ok a, u)
      → (states ≡ u.0) × (m s ≡ (ok a, u.1))
  beside_ok m states s u a h = (ap (λ r. r.1.0) h, ap (λ r. (r.0, r.1.1)) h)

  settle_block-enter :
      (d : Device) (p : DevicePolicy) (rule : ScheduleRuleRecord) (previous : Option ScheduledState)
      (to : Target)
      → target_for d ≡ some to
      → settle_block env d p (some rule) previous ≡ (
          beside (enter env previous to (asks_block rule p))
          >> remember env (d.id) (record { blocked = asks_block rule p; at = to }))
  unfolding settle_block
  settle_block-enter d p rule previous to known = rw (known, settle_block) refl

  window_held :
      (d : Device) (p : DevicePolicy) (rule : ScheduleRuleRecord) (to : Target)
      (states states' : States) (s t : S)
      → Agrees (held macs ips) s (lookup (d.id) states)
      → target_for d ≡ some to
      → IsNormal to
      → settle_known env d p (some rule) (states, s) ≡ (ok tt, (states', t))
      → (x : Target)
      → (held macs ips t x ≡ (
          if same_target to x
          then asks_block rule p
          else if was_at (lookup (d.id) states) x
          then false
          else held macs ips s x))
        × (lookup (d.id) states' ≡ some (record { blocked = asks_block rule p; at = to }))
  unfolding settle_known
  window_held d p rule to states states' s t agrees known c h x =
      let b = asks_block rule p in
      let previous = lookup d.id states in
      let state : ScheduledState = record { blocked = b; at = to } in
      let (_, (states2, u2), blocking, limiting) =
        bind_ok (settle_block env d p (some rule) previous)
          (λ _. beside (settle_limits env d p (some rule))) h in
      let (_, (states1, u1), entering, remembering) =
        bind_ok (beside (enter env previous to b)) (λ _. remember env d.id state)
          (ap (λ f. f (states, s)) (sym (settle_block-enter d p rule previous to known))
            ∙ blocking) in
      let (same1, entered) =
        beside_ok (enter env previous to b) states s (states1, u1) tt entering in
      let (same2, limits) =
        beside_ok (settle_limits env d p (some rule)) states2 u2 (states', t) tt limiting in
      (
        ap (λ r. held macs ips (r.1) x) (sym limits)
            ∙ (settle_limits-Keeps d p (some rule)).kept u2 x
            ∙ ap (λ r. held macs ips (r.1.1) x) (sym remembering)
            ∙ enter-held previous to b s u1 agrees c entered x,
        ap (lookup d.id) (sym same2)
            ∙ ap (λ r. lookup d.id (r.1.0)) (sym remembering)
            ∙ lookup-insert (d.id) (d.id) state states1
            ∙ ap (λ c. if c then some state else lookup d.id states1) (eq_refl d.id),
      )

  -- With a blocker that keeps the laws of IsBlocker, audits and traffic limits that leave the blocks
  -- alone, and a kernel that, before the run, still holds what the service remembers of the device
  -- (nothing else has blocked or freed that address since; a service that remembers nothing of the
  -- device asks nothing of it): when a run in a window ends well for a device whose address is
  -- known, the kernel blocks that address exactly if the rule, or else the policy, says so, the
  -- address that the service remembered of the device, when another, is free, no other changes, and
  -- the service remembers the new state, which the kernel then holds.
  pub window_enforced :
      (d : Device) (p : DevicePolicy) (rule : ScheduleRuleRecord) (to : Target)
      (states states' : States) (s t : S)
      → Agrees (held macs ips) s (lookup (d.id) states)
      → target_for d ≡ some to
      → IsNormal to
      → settle_known env d p (some rule) (states, s) ≡ (ok tt, (states', t))
      → (x : Target)
      → (held macs ips t x ≡ (
          if same_target to x
          then asks_block rule p
          else if was_at (lookup (d.id) states) x
          then false
          else held macs ips s x))
        × (lookup (d.id) states' ≡ some (record { blocked = asks_block rule p; at = to }))
        × Agrees (held macs ips) t (lookup (d.id) states')
  window_enforced d p rule to states states' s t agrees known c h x =
      let (blocks, stored) = window_held d p rule to states states' s t agrees known c h x in
      let (at_target, _) = window_held d p rule to states states' s t agrees known c h to in
      (blocks, stored, rw stored (rw ((same_target_iff to to).1 refl) at at_target, c))

  restore_in_place :
      (previous : ScheduledState) (current : Option Target) (b : Bool)
      → or_else current (some previous.at) ≡ some previous.at
      → restore env previous current b ≡ (
          if previous.blocked == b
          then pure tt
          else (leave_target env previous previous.at >> enforce_target env previous.at b))
  unfolding restore
  restore_in_place previous none b stays = refl
  restore_in_place previous (some to) b stays =
      let same : to ≡ previous.at = cc in
      ap
        (λ at.
          if previous.blocked == b
          then pure tt
          else (leave_target env previous at >> enforce_target env at b))
        same

  restore-held :
      (previous : ScheduledState) (current : Option Target) (b : Bool) (s t : S)
      → Agrees (held macs ips) s (some previous)
      → or_else current (some previous.at) ≡ some previous.at
      → restore env previous current b s ≡ (ok tt, t)
      → (x : Target)
      → held macs ips t x ≡ (if same_target previous.at x then b else held macs ips s x)
  restore-held previous current b s t (holds, c) stays h x =
      go (Bool-cases (previous.blocked == b))
        (ap (λ f. f s) (sym (restore_in_place previous current b stays)) ∙ h)
    where
      once :
          (here : Bool) (o : Bool)
          → (if here then b else if here then false else o) ≡ (if here then b else o)
      once true o = refl
      once false o = refl

      kept :
          (same_target previous.at x ≡ true) ⊎ (same_target previous.at x ≡ false)
          → previous.blocked ≡ b
          → held macs ips s x ≡ (if same_target previous.at x then b else held macs ips s x)
      kept (inl here) e =
          rw here (ap (held macs ips s) (sym ((same_target_iff previous.at x).0 here)) ∙ holds ∙ e)
      kept (inr other) e = rw other refl

      go :
          ((previous.blocked == b) ≡ true) ⊎ ((previous.blocked == b) ≡ false)
          → (if previous.blocked == b
                then pure tt
                else (leave_target env previous previous.at >> enforce_target env previous.at b))
              s
            ≡ (ok tt, t)
          → held macs ips t x ≡ (if same_target previous.at x then b else held macs ips s x)
      go (inl same) k =
          ap (λ r. held macs ips (r.1) x) (sym (rw same at k))
          ∙ kept (Bool-cases (same_target previous.at x)) ((bool_beq_iff previous.blocked b).0 same)
      go (inr changed) k =
          move-held previous (previous.at) b s t c c (rw changed at k) x
          ∙ once (same_target previous.at x) (held macs ips s x)

  -- With a blocker that keeps the laws of IsBlocker, audits and traffic limits that leave the blocks
  -- alone, and a kernel that, before the run, still holds what the service remembers of the device
  -- (nothing else has blocked or freed that address since): when the first run after a window ends
  -- well for a device that is still at the address that the service remembers, or has none, the
  -- kernel blocks that address exactly if the policy says so, no other address changes, and the
  -- service remembers nothing of the device.
  pub window_restored :
      (d : Device) (p : DevicePolicy) (previous : ScheduledState) (states states' : States)
      (s t : S)
      → lookup (d.id) states ≡ some previous
      → Agrees (held macs ips) s (some previous)
      → or_else (target_for d) (some previous.at) ≡ some previous.at
      → settle_known env d p none (states, s) ≡ (ok tt, (states', t))
      → (x : Target)
      → (held macs ips t x ≡ (if same_target previous.at x then p.blocked else held macs ips s x))
        × (lookup (d.id) states' ≡ none)
  unfolding settle_known settle_block
  window_restored d p previous states states' s t remembered agrees stays h x =
      let back = restore env previous (target_for d) p.blocked in
      let (_, (states2, u2), blocking, limiting) =
        bind_ok (settle_block env d p none (lookup d.id states))
          (λ _. beside (settle_limits env d p none)) h in
      let (_, (states1, u1), restoring, forgetting) =
        bind_ok (beside back) (λ _. forget env d.id)
          (ap (λ o. settle_block env d p none o (states, s)) (sym remembered) ∙ blocking) in
      let (same1, restored) = beside_ok back states s (states1, u1) tt restoring in
      let (same2, limits) =
        beside_ok (settle_limits env d p none) states2 u2 (states', t) tt limiting in
      (
        ap (λ r. held macs ips (r.1) x) (sym limits)
            ∙ (settle_limits-Keeps d p none).kept u2 x
            ∙ ap (λ r. held macs ips (r.1.1) x) (sym forgetting)
            ∙ restore-held previous (target_for d) p.blocked s u1 agrees stays restored x,
        ap (lookup d.id) (sym same2)
            ∙ ap (λ r. lookup d.id (r.1.0)) (sym forgetting)
            ∙ lookup-erase (d.id) (d.id) states1
            ∙ ap (λ c. if c then none else lookup d.id states1) (eq_refl d.id),
      )
