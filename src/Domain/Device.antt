-- ===== src/Domain/Device.antt =====
-- backend/src/domain/entities/Device.ts, backend/src/domain/entities/DevicePolicy.ts and
-- backend/src/domain/services/DeviceIdentityValidator.ts: the records that the services pass on.
use ayad_network_manager.Base.{ℕ, Bool, Option, Text}
use ayad_network_manager.Domain.MacAddress.{MacAddress}
use ayad_network_manager.Domain.IpAddress.{IpAddress}

pub data IdentitySource : Type 0 where
  dhcp dhcp_confirmed_proxy static_arp proxy_unconfirmed proxy_accepted_by_admin : IdentitySource

-- Dates are milliseconds.
pub record Device : Type 0 where
  pub id : ℕ
  pub mac : MacAddress
  pub ip : Option IpAddress
  pub hostname : Option Text
  pub l2_visible : Bool
  pub proxy_mac : Option MacAddress
  pub identity_validated : Bool
  pub identity_source : IdentitySource
  pub first_seen : ℕ
  pub last_seen : ℕ

-- One observation of a device by discovery.
pub record ValidatedDeviceIdentity : Type 0 where
  pub mac : Text
  pub ip : Text
  pub hostname : Option Text
  pub client_id : Option Text
  pub neighbor_state : Text
  pub l2_visible : Bool
  pub proxy_mac : Option Text
  pub identity_validated : Bool
  pub identity_source : IdentitySource
  pub deferred : Option Bool

-- Limits are thousandths of a megabit in a second, and quotas are bytes; neither is negative.
pub record DevicePolicy : Type 0 where
  pub id : ℕ
  pub device_id : ℕ
  pub blocked : Bool
  pub download_limit : Option ℕ
  pub upload_limit : Option ℕ
  pub quota : Option ℕ
  pub quota_period : Option Text
  pub quota_action : Option Text
  pub quota_enforced_action : Option Text
  pub profile_id : Option ℕ
  pub schedule_id : Option ℕ
