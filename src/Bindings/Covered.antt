-- ===== src/Bindings/Covered.antt =====
-- The lifecycle keeps the kernel's block of every address that is bound to a blocked device.
use ayad_network_manager.Base.{
  ℕ, Bool, true, false, not, ◌&&◌, Option, none, some, Text, nat_eq, text_eq, if◌then◌else◌,
}
use ayad_network_manager.Base.Map.{lookup}
use ayad_network_manager.Base.Effects.{Result, ok, err, pure, ◌>>=◌}
use ayad_network_manager.Base.Outcome.{Outcome, Ensures, Ensures-bind, Ensures-for_each}
use ayad_network_manager.Errors.{Error}
use ayad_network_manager.Text.{to_lower}
use ayad_network_manager.Domain.Device.{Device}
use ayad_network_manager.Ports.{Call, ask, Binding}
use ayad_network_manager.Firewall.{is_blocked}
use ayad_network_manager.Bindings.Lifecycle.{
  Services, Evidence, evidence, other_than, give_up, follow, settle, check_binding, check_bindings,
  reconcile,
}
use ayad_network_manager.Bindings.Store.{IsBindingStore, IsCovered}
use ayad_network_manager.Bindings.Steps.{pure-Covered, ask-Covered, give_up-Covered, follow-Covered}

module _ {S : Type 0} (env : Services S) {bound : S → ℕ → Text → Bool} {ips : S → Text → Bool}
    (store : IsBindingStore env bound ips) where
  settle-Covered :
      (known : Evidence) (d : Device) (ip : Text)
      → Ensures
          (IsCovered bound ips)
          (settle env known d ip)
          (λ _. (IsCovered bound ips))
          (IsCovered bound ips)
  unfolding settle
  settle-Covered known d ip =
      by_claim (other_than (to_lower d.mac.value) (lookup ip known.lease_mac_by_ip))
        (other_than ip (lookup (to_lower d.mac.value) known.lease_ip_by_mac))
    where
      by_claim :
          (claim moved : Option Text)
          → Ensures
              (IsCovered bound ips)
              (elim claim as (λ _. Call S (Unit {0})) [
                | some claimant ↦ give_up env d ip claimant
                | none ↦ elim moved as (λ _. Call S (Unit {0})) [
                  | none ↦ pure tt
                  | some current ↦ follow env d ip current
                ]
              ])
              (λ _. (IsCovered bound ips))
              (IsCovered bound ips)
      by_claim (some claimant) moved = give_up-Covered env store d ip claimant
      by_claim none none = pure-Covered env store
      by_claim none (some current) = follow-Covered env store d ip current

  check_binding-Covered :
      (known : Evidence) (binding : Binding)
      → Ensures
          (IsCovered bound ips)
          (check_binding env known binding)
          (λ _. (IsCovered bound ips))
          (IsCovered bound ips)
  unfolding check_binding
  check_binding-Covered known binding = by_device (lookup binding.device_id known.device_by_id)
    where
      when :
          (b : Bool) (m : Call S (Unit {0}))
          → Ensures (IsCovered bound ips) m (λ _. (IsCovered bound ips)) (IsCovered bound ips)
          → Ensures
              (IsCovered bound ips)
              (if b then m else pure tt)
              (λ _. (IsCovered bound ips))
              (IsCovered bound ips)
      when true m h = h
      when false m h = pure-Covered env store

      by_device :
          (o : Option Device)
          → Ensures
              (IsCovered bound ips)
              (elim o as (λ _. Call S (Unit {0})) [
                | none ↦ pure tt
                | some d ↦ ask (env.policies.find_by_device_id d.id) >>= λ policy.
                    if is_blocked policy && d.identity_validated && not d.l2_visible
                    then settle env known d binding.ip
                    else pure tt
              ])
              (λ _. (IsCovered bound ips))
              (IsCovered bound ips)
      by_device none = pure-Covered env store
      by_device (some d) =
          Ensures-bind (ask (env.policies.find_by_device_id d.id)) _
            (ask-Covered env store (env.policies.find_by_device_id d.id))
            (λ policy.
              when (is_blocked policy && d.identity_validated && not d.l2_visible)
                (settle env known d binding.ip) (settle-Covered known d binding.ip))

  check_bindings-Covered :
      (now : ℕ)
      → Ensures
          (IsCovered bound ips)
          (check_bindings env now)
          (λ _. (IsCovered bound ips))
          (IsCovered bound ips)
  unfolding check_bindings
  check_bindings-Covered now =
      Ensures-bind (ask (env.devices.find_all)) _ (ask-Covered env store (env.devices.find_all))
        (λ ds.
          Ensures-bind (ask (env.read_leases)) _ (ask-Covered env store (env.read_leases))
            (λ leases.
              Ensures-bind (ask (env.blocked_devices.active_bindings)) _
                (ask-Covered env store (env.blocked_devices.active_bindings))
                (λ bindings.
                  Ensures-for_each bindings (check_binding env (evidence now ds leases))
                    (check_binding-Covered (evidence now ds leases)))))

  -- With stores that keep the laws of IsBindingStore: if the kernel blocks every address that an
  -- active binding has, it does so after a run of the lifecycle, whichever call of the run fails.
  pub reconcile-IsCovered :
      (now : ℕ) (s : S) → IsCovered bound ips s → IsCovered bound ips (reconcile env now s).1
  unfolding reconcile
  reconcile-IsCovered now s c =
      go (check_bindings env now s) ((check_bindings-Covered now).ensured s c)
    where
      go :
          (r : Result Error (Unit {0}) × S)
          → Outcome (λ _. (IsCovered bound ips)) (IsCovered bound ips) r
          → IsCovered bound ips
              (elim (r.0) as (λ _. Result Error (Unit {0}) × S) [
                | ok a ↦ (ok a, r.1)
                | err e ↦ (ok tt, r.1)
              ]).1
      go (ok a, t) h = h
      go (err e, t) h = h
