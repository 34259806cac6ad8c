-- ===== src/Errors.antt =====
-- What the program throws: one constructor for each `throw`, and the failures of what it calls.
use ayad_network_manager.Base.{ℕ, Bool, Text}
use ayad_network_manager.Base.Int.{ℤ}

pub data Error : Type 0 where
  -- a call out of the program failed, with this message
  call_failed : Text → Error
  invalid_mac invalid_ip : Text → Error
  -- TrafficRateParser, TrafficRate and DefaultTrafficPolicyValidator
  invalid_rate : Text → Error
  rate_precision rate_not_positive : Error
  device_without_ip : Text → Error
  rate_above_uplink : Text → ℤ → Error
  -- FirewallService
  device_not_found identity_not_validated refusing_proxy_mac : Text → Error
  not_unconfirmed acknowledgment_missing refusing_requester no_ip_enforcement : Error
  pending_enforcement : ℕ → Bool → Error → Error
  -- IpBindingLifecycleService and BlockedIpReconciliationService
  ip_blocking_unavailable ip_unblocking_unavailable enforcement_adapter_missing : Error
  -- QuotaService
  negative_usage quota_not_configured : Error
  -- SingleInterfaceIfbTrafficEnforcer
  no_filter_priority : Text → Error
  -- TrafficEnforcementService and TrafficReconciliationService
  invalid_throttle_rate : Error
  traffic_policy_failed : Text → Error → Error
  stale_download_failed stale_upload_failed : Error → Error
  -- ScheduleEnforcementService
  scheduled_block_needs_ip : Error
  -- DevicePolicyService
  negative_quota invalid_profile_id invalid_schedule_id catalog_unavailable : Error
  profile_not_found schedule_not_found : ℤ → Error
  -- PolicyCatalogService
  invalid_id invalid_day invalid_time profile_name_missing schedule_name_missing : Error
  invalid_port_rule no_current_ip : Error
