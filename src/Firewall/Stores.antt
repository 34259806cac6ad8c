-- ===== src/Firewall/Stores.antt =====
-- What the firewall relies on of its stores, beside its blocker.
use ayad_network_manager.Base.{ℕ, Bool, ◌≡◌, Option, some, Text, ◌==◌, nat_eq, if◌then◌else◌}
use ayad_network_manager.Base.Effects.{ok}
use ayad_network_manager.Base.Frame.{Keeps}
use ayad_network_manager.Domain.MacAddress.{MacAddress}
use ayad_network_manager.Ports.{call_if, no_change, AuditEntry}
use ayad_network_manager.Firewall.{Collaborators, audited, record_block, release_block}

-- The manual block of every device, as `blocked s`: only a write of the policy store changes it,
-- and one that ends well does. `IsPolicyView env blocked` says so.
pub record IsPolicyView {S : Type 0} (env : Collaborators S) (blocked : S → ℕ → Bool) : Type 0 where
  pub upsert_blocked :
      (id : ℕ) (b : Bool) (s : S)
      → (env.policies.upsert id (record no_change { blocked = some b }) s).0 ≡ ok tt
      → (k : ℕ)
      → blocked (env.policies.upsert id (record no_change { blocked = some b }) s).1 k
        ≡ (if id == k then b else blocked s k)
  pub block_keeps : (m : MacAddress) (ip : Option Text) → Keeps blocked (env.blocker.block m ip)
  pub unblock_keeps : (m : MacAddress) (ip : Option Text) → Keeps blocked (env.blocker.unblock m ip)
  pub block_ip_keeps : (ip : Text) → Keeps blocked (call_if (env.blocker.block_ip) ip)
  pub unblock_ip_keeps : (ip : Text) → Keeps blocked (call_if (env.blocker.unblock_ip) ip)
  pub record_keeps :
      (id : ℕ) (mac ip : Option Text) (reason : Text)
      → Keeps blocked (record_block env id mac ip reason)
  pub release_keeps : (id : ℕ) → Keeps blocked (release_block env id)
  pub audit_keeps : (entry : AuditEntry) → Keeps blocked (audited env entry)
