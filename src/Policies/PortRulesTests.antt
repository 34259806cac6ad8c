-- ===== src/Policies/PortRulesTests.antt =====
-- A port rule that cannot be enforced, and the theorem there.
use ayad_network_manager.Base.{
  ℕ, true, Option, none, some, [], ◌∷◌, ◌≡◌, refl, ◌∙◌, sym, ap, codes, ◌==◌, nat_eq, text_eq,
  text_beq, if◌then◌else◌, Bool-cases, inl, inr, arith,
}
use ayad_network_manager.Base.Int.{pos}
use ayad_network_manager.Base.Effects.{ok, err, pure, throw}
use ayad_network_manager.Base.Outcome.{Outcome}
use ayad_network_manager.Errors.{Error, call_failed}
use ayad_network_manager.Ports.{Call}
use ayad_network_manager.Traffic.Memory.{desk}
use ayad_network_manager.Policies.Catalog.{
  NewPortRule, PortRuleRecord, PortRuleEnforcer, Services, is_port_rule, create_port_rule,
}
use ayad_network_manager.Policies.PortRules.{IsRuleStore, Made, Undone, create_port_rule-Outcome}

-- The state is the rule with the id 1, the only one that there is room for.
abbrev Slot : Type 0
Slot = Option NewPortRule

abbrev record_of : Slot → Option PortRuleRecord
record_of none = none
record_of (some n) = some (record { id = 1; rule = n })

abbrev rules : Slot → ℕ → Option PortRuleRecord
rules s k = if 1 == k then record_of s else none

abbrev create : NewPortRule → Call Slot PortRuleRecord
create input none = (ok (record { id = 1; rule = input }), some input)
create input (some n) = (err (call_failed []), some n)

-- nft refuses every rule.
abbrev refusing : PortRuleEnforcer Slot
refusing = record { apply = λ mac ip r. throw (call_failed (codes "nft")); remove = λ r. pure tt }

abbrev services : Services Slot
services = record {
  repository = record {
    profiles = λ s. ok [];
    create_profile = λ input. throw (call_failed []);
    update_profile = λ id input. throw (call_failed []);
    delete_profile = λ id. pure tt;
    schedules = λ s. ok [];
    create_schedule = λ input. throw (call_failed []);
    update_schedule = λ id input. throw (call_failed []);
    delete_schedule = λ id. pure tt;
    port_rules = λ id s. ok [];
    port_rule = λ id s. ok (rules s id);
    create_port_rule = create;
    delete_port_rule = λ id s. (ok tt, if id == 1 then none else s);
  };
  devices = some (record {
    find_by_mac = λ m s. ok (some desk);
    find_by_id = λ id s. ok (some desk);
    find_all = λ s. ok (desk ∷ []);
    update = λ id change. pure tt;
  });
  port_enforcer = some refusing;
}

services-IsRuleStore : IsRuleStore services rules
services-IsRuleStore = record {
  creates = created;
  creates_new = was_free;
  create_throws = refused;
  deletes = λ id s t h k. ap (λ r. rules (r.1) k) (sym h) ∙ deleted id s k;
  delete_throws = λ id s t e h. absurd (cc);
  apply_keeps = λ enforcer e mac ip r. record {
    kept = λ s k.
        ap (λ (f : PortRuleEnforcer Slot). rules (f.apply mac ip r s).1 k) (sym (same enforcer e));
  };
}
  where
    same :
        (f : PortRuleEnforcer Slot)
        → ◌≡◌ {A = Option (PortRuleEnforcer Slot)} (some refusing) (some f)
        → refusing ≡ f
    same f e = cc

    created :
        (input : NewPortRule) (s t : Slot) (r : PortRuleRecord)
        → create input s ≡ (ok r, t)
        → (k : ℕ) → rules t k ≡ (if r.id == k then some r else rules s k)
    created input none t r h k =
        let is : r ≡ record { id = 1; rule = input } = cc in
        let to : t ≡ some input = cc in
        rw (is, to)
          (elim (Bool-cases (1 == k)) [ inl here ↦ rw here refl | inr other ↦ rw other refl ])
    created input (some n) t r h k = absurd (cc)

    was_free :
        (input : NewPortRule) (s t : Slot) (r : PortRuleRecord)
        → create input s ≡ (ok r, t)
        → rules s r.id ≡ none
    was_free input none t r h = elim (Bool-cases (1 == r.id)) [
      | inl here ↦ rw here refl
      | inr other ↦ rw other refl
    ]
    was_free input (some n) t r h = absurd (cc)

    refused :
        (input : NewPortRule) (s t : Slot) (e : Error)
        → create input s ≡ (err e, t)
        → (k : ℕ) → rules t k ≡ rules s k
    refused input none t e h k = absurd (cc)
    refused input (some n) t e h k = let to : t ≡ some n = cc in ap (λ v. rules v k) to

    deleted :
        (id : ℕ) (s : Slot) (k : ℕ)
        → rules (if id == 1 then none else s) k ≡ (if id == k then none else rules s k)
    deleted id s k = elim (Bool-cases (1 == k)) [
      | inl here ↦ ground arith
      | inr other ↦ ground arith
    ]

abbrev web : NewPortRule
web = record {
  device_id = 7;
  name = codes "web";
  protocol = codes "tcp";
  port = pos 443;
  action = codes "block";
  enabled = true;
}

rolled_back : create_port_rule services web none ≡ (err (call_failed (codes "nft")), none)
unfolding create_port_rule is_port_rule text_beq
rolled_back = refl

create_port_rule-Outcome_example :
    Outcome
      (Made services services-IsRuleStore none)
      (Undone services services-IsRuleStore none)
      (create_port_rule services web none)
create_port_rule-Outcome_example = create_port_rule-Outcome services services-IsRuleStore none web
