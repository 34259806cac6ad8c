-- ===== src/Policies/PortRules.antt =====
-- A port rule is made whole or not at all.
use ayad_network_manager.Base.{
  ℕ, Bool, true, false, Option, none, some, ◌≡◌, refl, ◌∙◌, sym, ◌==◌, nat_eq, nat_beq_iff,
  if◌then◌else◌, Bool-cases, inl, inr, Text,
}
use ayad_network_manager.Base.Effects.{Result, ok, err, pure, throw, catch, ◌>>=◌, ◌>>◌}
use ayad_network_manager.Base.Frame.{Keeps}
use ayad_network_manager.Base.Outcome.{Outcome, Ensures, Ensures-bind, Ensures-catch}
use ayad_network_manager.Errors.{Error, no_current_ip}
use ayad_network_manager.Domain.IpAddress.{IpAddress}
use ayad_network_manager.Domain.Device.{Device}
use ayad_network_manager.Ports.{Call, ask, DeviceRepository}
use ayad_network_manager.Policies.Catalog.{
  NewPortRule, PortRuleRecord, PortRuleEnforcer, Services, is_port_rule, with_ip, device_of,
  enforce_rule, create_enforced, create_port_rule,
}

-- The rule with each id, as `rules s`: a rule that is made has a new id, a delete that ends well takes
-- its rule away, a make or a delete that throws changes nothing, and the enforcer does not touch the
-- rules.
pub record IsRuleStore {S : Type 0} (env : Services S) (rules : S → ℕ → Option PortRuleRecord)
    : Type 0 where
  pub creates :
      (input : NewPortRule) (s t : S) (r : PortRuleRecord)
      → env.repository.create_port_rule input s ≡ (ok r, t)
      → (k : ℕ) → rules t k ≡ (if r.id == k then some r else rules s k)
  pub creates_new :
      (input : NewPortRule) (s t : S) (r : PortRuleRecord)
      → env.repository.create_port_rule input s ≡ (ok r, t)
      → rules s r.id ≡ none
  pub create_throws :
      (input : NewPortRule) (s t : S) (e : Error)
      → env.repository.create_port_rule input s ≡ (err e, t)
      → (k : ℕ) → rules t k ≡ rules s k
  pub deletes :
      (id : ℕ) (s t : S)
      → env.repository.delete_port_rule id s ≡ (ok tt, t)
      → (k : ℕ) → rules t k ≡ (if id == k then none else rules s k)
  pub delete_throws :
      (id : ℕ) (s t : S) (e : Error)
      → env.repository.delete_port_rule id s ≡ (err e, t)
      → (k : ℕ) → rules t k ≡ rules s k
  pub apply_keeps :
      (enforcer : PortRuleEnforcer S)
      → env.port_enforcer ≡ some enforcer
      → (mac ip : Text) (r : PortRuleRecord) → Keeps rules (enforcer.apply mac ip r)

module _ {S : Type 0} (env : Services S) {rules : S → ℕ → Option PortRuleRecord}
    (store : IsRuleStore env rules) (s : S) where
  -- The rule that is answered is new, and no other rule changes.
  pub record Made (r : PortRuleRecord) (t : S) : Type 0 where
    pub made : (k : ℕ) → rules t k ≡ (if r.id == k then some r else rules s k)
    pub fresh : rules s r.id ≡ none

  -- After a throw: the rules are as they were, or it was the rollback's own delete that threw, and
  -- the rule that was made is the only change.
  pub data Undone (t : S) : Type 0 where
    same : ((k : ℕ) → rules t k ≡ rules s k) → Undone t
    left :
        (r : PortRuleRecord) (u : S) (e : Error)
        → env.repository.delete_port_rule r.id u ≡ (err e, t)
        → ((k : ℕ) → rules t k ≡ (if r.id == k then some r else rules s k))
        → Undone t

  enforce_rule-Made :
      (enabled : Bool) (d : Device) (address : IpAddress) (r : PortRuleRecord)
      → Ensures (Made r) (enforce_rule env enabled d address r) (λ _. Made r) (Made r)
  unfolding enforce_rule
  enforce_rule-Made enabled d address r = by_enforcer enabled (env.port_enforcer) refl
    where
      by_enforcer :
          (enabled : Bool) (o : Option (PortRuleEnforcer S))
          → env.port_enforcer ≡ o
          → Ensures
              (Made r)
              (elim o as (λ _. Call S (Unit {0})) [
                | none ↦ pure tt
                | some enforcer ↦
                    if enabled then enforcer.apply d.mac.value address.value r else pure tt
              ])
              (λ _. Made r)
              (Made r)
      by_enforcer enabled none e = record { ensured = λ t m. m }
      by_enforcer false (some enforcer) e = record { ensured = λ t m. m }
      by_enforcer true (some enforcer) e = record {
        ensured = λ t m.
            go t m (enforcer.apply d.mac.value address.value r t)
              ((store.apply_keeps enforcer e d.mac.value address.value r).kept t);
      }
        where
          go :
              (t : S)
              → Made r t
              → (q : Result Error (Unit {0}) × S) → ((k : ℕ) → rules (q.1) k ≡ rules t k)
              → Outcome (λ _. Made r) (Made r) q
          go t m (ok a, u) kept = record { made = λ k. kept k ∙ m.made k; fresh = m.fresh }
          go t m (err x, u) kept = record { made = λ k. kept k ∙ m.made k; fresh = m.fresh }

  undo-Undone :
      (r : PortRuleRecord) (e : Error)
      → Ensures
          (Made r)
          (env.repository.delete_port_rule r.id >> throw e)
          (λ (_ : Unit {0}). Made r)
          Undone
  undo-Undone r e =
      Ensures-bind (env.repository.delete_port_rule r.id) (λ _. throw e)
        (record { ensured = λ t m. go t m (env.repository.delete_port_rule r.id t) refl })
        (λ _. record { ensured = λ t m. m })
    where
      back : (t : S) → Made r t → (k : ℕ) → (if r.id == k then none else rules t k) ≡ rules s k
      back t m k = elim (Bool-cases (r.id == k)) [
        | inl is ↦ rw is (rw ((nat_beq_iff r.id k).0 is) at (sym m.fresh))
        | inr other ↦ rw other (rw other at (m.made k))
      ]

      go :
          (t : S)
          → Made r t
          → (q : Result Error (Unit {0}) × S) → env.repository.delete_port_rule r.id t ≡ q
          → Outcome (λ (_ : Unit {0}). Undone) Undone q
      go t m (ok a, u) h = same (λ k. store.deletes r.id t u h k ∙ back t m k)
      go t m (err x, u) h = left r t x h (λ k. store.delete_throws r.id t u x h k ∙ m.made k)

  create_enforced-Made :
      (input : NewPortRule) (d : Device) (address : IpAddress)
      → Outcome Made Undone (create_enforced env input d address s)
  unfolding create_enforced
  create_enforced-Made input d address =
      (Ensures-bind {P = λ t. t ≡ s} {Q = Made} (env.repository.create_port_rule input) _
          (record { ensured = λ t is. rw is (go (env.repository.create_port_rule input s) refl) })
          (λ r.
            Ensures-bind {Q = λ _. Made r}
              (catch (enforce_rule env input.enabled d address r)
                (λ e. env.repository.delete_port_rule r.id >> throw e))
              (λ _. pure r)
              (Ensures-catch (enforce_rule env input.enabled d address r) _
                (enforce_rule-Made input.enabled d address r) (undo-Undone r))
              (λ _. record { ensured = λ t m. m }))).ensured
        s refl
    where
      go :
          (q : Result Error PortRuleRecord × S)
          → env.repository.create_port_rule input s ≡ q
          → Outcome Made Undone q
      go (ok r, t) e = record {
        made = store.creates input s t r e;
        fresh = store.creates_new input s t r e;
      }
      go (err x, t) e = same (store.create_throws input s t x e)

  -- With stores that keep the laws of IsRuleStore: a port rule that the service makes is new and the
  -- only change of the rules, and a make that throws, also one whose rule cannot be enforced, leaves
  -- the rules as they were, unless the delete that takes the made rule back throws itself: then that
  -- rule is the only change.
  pub create_port_rule-Outcome :
      (input : NewPortRule) → Outcome Made Undone (create_port_rule env input s)
  unfolding create_port_rule device_of
  create_port_rule-Outcome input = elim (Bool-cases (is_port_rule input)) [
    | inl good ↦ rw good (by_devices (env.devices))
    | inr bad ↦ rw bad (same (λ k. refl))
  ]
    where
      enforced : Option (Device × IpAddress) → Call S PortRuleRecord
      enforced o = elim o [
        | none ↦ throw no_current_ip
        | some (d, address) ↦ create_enforced env input d address
      ]

      by_found : (o : Option (Device × IpAddress)) → Outcome Made Undone (enforced o s)
      by_found none = same (λ k. refl)
      by_found (some (d, address)) = create_enforced-Made input d address

      by_read :
          (q : Result Error (Option Device))
          → Outcome Made Undone (elim q as (λ _. Result Error PortRuleRecord × S) [
            | ok found ↦ enforced (with_ip found) s
            | err e ↦ (err e, s)
          ])
      by_read (ok found) = by_found (with_ip found)
      by_read (err e) = same (λ k. refl)

      by_devices :
          (o : Option (DeviceRepository S))
          → Outcome Made Undone (
              ((elim o as (λ _. Call S (Option Device)) [
                | none ↦ pure none
                | some known ↦ ask (known.find_by_id input.device_id)
              ])
                  >>= λ found. enforced (with_ip found))
                s)
      by_devices none = same (λ k. refl)
      by_devices (some known) = by_read (known.find_by_id input.device_id s)
