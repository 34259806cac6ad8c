-- ===== src/Domain/IpAddress.antt =====
-- backend/src/domain/value-objects/IpAddress.ts
use ayad_network_manager.Base.{ℕ, Text, ◌==◌, nat_eq, if◌then◌else◌}
use ayad_network_manager.Base.Effects.{Result, ok, err}
use ayad_network_manager.Text.{trim}
use ayad_network_manager.Errors.{Error, invalid_ip}

-- The constructor is private: `create` makes every value.
pub record IpAddress : Type 0 where
  pub value : Text

-- `is_ip` is `isIP` of node:net: 4, 6, or 0 for a text that is no address.
unfoldable pub create : (Text → ℕ) → Text → Result Error IpAddress
create is_ip s =
    let normalized = trim s in
    if is_ip normalized == 0 then err (invalid_ip s) else ok (record { value = normalized })
