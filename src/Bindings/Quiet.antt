-- ===== src/Bindings/Quiet.antt =====
-- A run of the reconciliation of blocked addresses releases none without a lease that says so.
use ayad_network_manager.Base.{
  ℕ, Bool, true, Option, none, some, List, [], ◌≡◌, refl, Text, text_eq,
}
use ayad_network_manager.Base.Effects.{Result, ok, err, pure, catch, ◌>>=◌}
use ayad_network_manager.Base.Outcome.{Outcome-state}
use ayad_network_manager.Errors.{Error, enforcement_adapter_missing}
use ayad_network_manager.Domain.Device.{Device}
use ayad_network_manager.Ports.{Call, Read, ask, or_throw, DeviceBlocker, Binding}
use ayad_network_manager.Bindings.{DhcpLease}
use ayad_network_manager.Bindings.Blocked.{
  Services, NeighborEntry, evidence, blocked_ips, settle, align, reconcile, expected,
  active_bindings,
}
use ayad_network_manager.Bindings.Held.{IsIpKernel, IsQuiet, Held, settle-Holds}

-- A run from this state ends in one with the property.
record EndsIn {S : Type 0} (P : S → Type 0) (m : Call S (Unit {0})) (s : S) : Type 0 where
  ends : P (m s).1

ask-EndsIn :
    {S A : Type 0} (P : S → Type 0) (r : Read S A) {f : A → Call S (Unit {0})} {s : S}
    → P s
    → ((a : A) → r s ≡ ok a → EndsIn P (f a) s)
    → EndsIn P (ask r >>= f) s
ask-EndsIn {S} {A} P r {f} {s} h each = record { ends = go (r s) refl }
  where
    go :
        (a : Result Error A)
        → r s ≡ a
        → P (elim a as (λ _. Result Error (Unit {0}) × S) [ ok a ↦ f a s | err e ↦ (err e, s) ]).1
    go (ok a) e = (each a e).ends
    go (err e) e' = h

module _ {S : Type 0} (env : Services S) {ips : S → Text → Bool} (kernel : IsIpKernel env ips) where
  align-Held :
      (now : ℕ) (blocker : DeviceBlocker S) (s : S) (x : Text)
      → env.blocker ≡ some blocker
      → ((ds : List Device) (leases : List DhcpLease) (table : List NeighborEntry)
            (bs : List Binding)
          → env.devices.find_all s ≡ ok ds
          → env.read_leases s ≡ ok leases
          → active_bindings env s ≡ ok bs
          → IsQuiet (evidence now ds leases table bs) x)
      → Held env kernel x s
      → EndsIn (Held env kernel x) (align env now blocker) s
  unfolding align
  align-Held now blocker s x given quiet h = ask-EndsIn held (env.devices.find_all) h (λ ds found.
      ask-EndsIn held (env.read_leases) h (λ leases read.
        ask-EndsIn held (env.neighbors) h (λ table _.
          ask-EndsIn held (blocked_ips env blocker) h (λ blocked _.
            ask-EndsIn held (active_bindings env) h (λ bs bound.
              let known = evidence now ds leases table bs in
              let quiet' = quiet ds leases table bs found read bound in
              ask-EndsIn held (expected env known ds ([], [])) h (λ wanted _. record {
                ends = Outcome-state held (settle env blocker known wanted blocked s) (
                    (settle-Holds env kernel x blocker given known wanted blocked quiet').ensured s
                      h);
              }))))))
    where
      held : S → Type 0
      held = Held env kernel x

  -- An address that the kernel blocks stays blocked by a run, whichever of its calls fails, when no
  -- active lease that it reads is of the address or of the device that the address is bound to.
  pub quiet_stays_blocked :
      (now : ℕ) (s : S) (x : Text)
      → ((ds : List Device) (leases : List DhcpLease) (table : List NeighborEntry)
            (bs : List Binding)
          → env.devices.find_all s ≡ ok ds
          → env.read_leases s ≡ ok leases
          → active_bindings env s ≡ ok bs
          → IsQuiet (evidence now ds leases table bs) x)
      → ips s x ≡ true
      → ips (reconcile env now s).1 x ≡ true
  unfolding reconcile
  quiet_stays_blocked now s x quiet h = by_blocker (env.blocker) refl
    where
      caught :
          (m : Call S (Unit {0}))
          → Held env kernel x (m s).1
          → ips (catch m (λ e. pure tt) s).1 x ≡ true
      caught m c = go (m s) c
        where
          go :
              (r : Result Error (Unit {0}) × S)
              → Held env kernel x r.1
              → ips
                  (elim (r.0) as (λ _. Result Error (Unit {0}) × S) [
                    | ok a ↦ (ok a, r.1)
                    | err e ↦ (ok tt, r.1)
                  ]).1
                  x
                ≡ true
          go (ok a, t) c = c.held
          go (err e, t) c = c.held

      by_blocker :
          (b : Option (DeviceBlocker S))
          → env.blocker ≡ b
          → ips
              (catch (or_throw b enforcement_adapter_missing >>= align env now) (λ e. pure tt) s).1
              x
            ≡ true
      by_blocker none given = h
      by_blocker (some blocker) given =
          caught (align env now blocker)
            (align-Held now blocker s x given quiet (record { held = h })).ends
