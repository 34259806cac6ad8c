-- ===== src/Bindings/Store.antt =====
-- What the lifecycle relies on of the bindings' store and of the kernel.
use ayad_network_manager.Base.{
  ℕ, Bool, true, false, none, some, List, ◌≡◌, Text, ◌==◌, nat_eq, text_eq, ◌⊎◌,
}
use ayad_network_manager.Base.Effects.{ok}
use ayad_network_manager.Ports.{Call, call_if, Binding}
use ayad_network_manager.Bindings.Lifecycle.{Services, still_bound, release_ip}

-- Every active binding, as `bound s device address`, and the addresses that the kernel blocks, as
-- `ips s`. A block adds its address when it ends well and takes none away; an unblock takes away at
-- most its own; a record adds at most its binding, a release adds none, and none of them changes the
-- other view. A read of the bindings leaves none out.
pub record IsBindingStore {S : Type 0} (env : Services S) (bound : S → ℕ → Text → Bool)
    (ips : S → Text → Bool) : Type 0 where
  pub block_ip_adds :
      (block_ip : Text → Call S (Unit {0}))
      → env.blocker.block_ip ≡ some block_ip
      → (ip : Text) (s : S) → (block_ip ip s).0 ≡ ok tt
      → ips (block_ip ip s).1 ip ≡ true
  pub block_ip_keeps :
      (block_ip : Text → Call S (Unit {0}))
      → env.blocker.block_ip ≡ some block_ip
      → (ip : Text) (s : S) (x : Text) → ips s x ≡ true
      → ips (block_ip ip s).1 x ≡ true
  pub block_ip_bound :
      (block_ip : Text → Call S (Unit {0}))
      → env.blocker.block_ip ≡ some block_ip
      → (ip : Text) (s : S) (k : ℕ) (x : Text) → bound (block_ip ip s).1 k x ≡ bound s k x
  pub unblock_ip_keeps :
      (ip : Text) (s : S) (x : Text)
      → (ip == x) ≡ false
      → ips s x ≡ true
      → ips (call_if (env.blocker.unblock_ip) ip s).1 x ≡ true
  pub unblock_ip_bound :
      (ip : Text) (s : S) (k : ℕ) (x : Text)
      → bound (call_if (env.blocker.unblock_ip) ip s).1 k x ≡ bound s k x
  pub record_block_adds :
      (id : ℕ) (ip reason : Text) (s : S) (k : ℕ) (x : Text)
      → bound (env.blocked_devices.record_block id none (some ip) (some reason) s).1 k x ≡ true
      → (bound s k x ≡ true) ⊎ (ip ≡ x)
  pub record_block_ips :
      (id : ℕ) (ip reason : Text) (s : S) (x : Text)
      → ips (env.blocked_devices.record_block id none (some ip) (some reason) s).1 x ≡ ips s x
  pub release_ip_bound :
      (id : ℕ) (ip reason : Text) (s : S) (k : ℕ) (x : Text)
      → bound (release_ip env id ip reason s).1 k x ≡ true
      → bound s k x ≡ true
  pub release_ip_ips :
      (id : ℕ) (ip reason : Text) (s : S) (x : Text)
      → ips (release_ip env id ip reason s).1 x ≡ ips s x
  pub active_bindings_all :
      (s : S) (bindings : List Binding)
      → env.blocked_devices.active_bindings s ≡ ok bindings
      → (k : ℕ) (x : Text) → bound s k x ≡ true
      → still_bound x bindings ≡ true

-- Every address that is bound is blocked in the kernel.
pub record IsCovered {S : Type 0} (bound : S → ℕ → Text → Bool) (ips : S → Text → Bool) (s : S)
    : Type 0 where
  pub covered : (k : ℕ) (x : Text) → bound s k x ≡ true → ips s x ≡ true
