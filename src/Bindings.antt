-- ===== src/Bindings.antt =====
-- The leases that the services of IP bindings read
-- (backend/src/domain/value-objects/NetworkObservation.ts), and the maps that they make of them.
pub mod Lifecycle
pub mod Store
pub mod Steps
pub mod Covered
pub mod Held
pub mod Quiet
pub mod Lock
pub mod Blocked
mod Tests
mod QuietTests
use ayad_network_manager.Base.{
  ℕ, Bool, ◌||◌, Option, List, [], ◌∷◌, Text, ltb, ◌==◌, nat_eq, text_eq,
}
use ayad_network_manager.Base.Map.{insert}
use ayad_network_manager.Domain.Device.{Device}

-- An expiry is in seconds since 1970; 0 is a lease that does not expire.
pub record DhcpLease : Type 0 where
  pub expiry : ℕ
  pub mac : Text
  pub ip : Text
  pub hostname : Option Text
  pub client_id : Option Text

-- `lease.expiry === 0 || lease.expiry > nowSeconds`
unfoldable pub is_lease_active : ℕ → DhcpLease → Bool
is_lease_active now lease = lease.expiry == 0 || ltb now lease.expiry

-- `new Map(items.map((item) => [key, value]))`, over what is already there
abbrev pub map_of {ℓ} :
    {A : Type ℓ} {V : Type 0} → (A → Text) → (A → V) → List A → List (Text × V) → List (Text × V)
map_of key value [] entries = entries
map_of key value (x ∷ xs) entries = map_of key value xs (insert (key x) (value x) entries)

-- `new Map(devices.map((device) => [device.id, device]))`
pub devices_by_id : List Device → List (ℕ × Device) → List (ℕ × Device)
devices_by_id [] entries = entries
devices_by_id (d ∷ ds) entries = devices_by_id ds (insert (d.id) d entries)
