-- ===== src/Policies/Catalog.antt =====
-- backend/src/application/policies/PolicyCatalogService.ts, over the interfaces of
-- PolicyCatalogRepository.ts and PortRuleEnforcer.ts. Ids, days and ports are integers here; a number
-- that is none is refused by the same tests.
use ayad_network_manager.Base.{
  ℕ, Bool, false, not, ◌&&◌, ◌||◌, Option, none, some, List, [], ◌∷◌, Text, codes, ◌==◌, nat_eq,
  text_eq, leb, if◌then◌else◌,
}
use ayad_network_manager.Base.Int.{ℤ, pos, negsuc, pos_part}
use ayad_network_manager.Base.Effects.{pure, throw, catch, ◌>>=◌, ◌>>◌}
use ayad_network_manager.Errors.{
  invalid_id, invalid_day, invalid_time, profile_name_missing, schedule_name_missing,
  invalid_port_rule, no_current_ip,
}
use ayad_network_manager.Text.{trim}
use ayad_network_manager.Domain.IpAddress.{IpAddress}
use ayad_network_manager.Domain.Device.{Device}
use ayad_network_manager.Ports.{Call, Read, ask, DeviceRepository}
use ayad_network_manager.Policies.{ProfileRecord, ScheduleRecord}
use ayad_network_manager.Policies.Patch.{is_id}
use ayad_network_manager.Policies.Window.{is_time}

-- Records without an id, and changes, where outside `undefined` leaves a column as it is.
pub record NewProfile : Type 0 where
  pub name : Text
  pub description : Option Text
  pub download_limit : Option ℕ
  pub upload_limit : Option ℕ
  pub quota : Option ℕ
  pub quota_period : Option Text

pub record ProfileChange : Type 0 where
  pub name : Option Text
  pub description : Option (Option Text)
  pub download_limit : Option (Option ℕ)
  pub upload_limit : Option (Option ℕ)
  pub quota : Option (Option ℕ)
  pub quota_period : Option (Option Text)

pub record NewRule : Type 0 where
  pub day_of_week : ℤ
  pub start_time : Text
  pub end_time : Text
  pub download_limit : Option ℕ
  pub upload_limit : Option ℕ
  pub blocked : Option Bool

pub record NewSchedule : Type 0 where
  pub name : Text
  pub description : Option Text
  pub rules : List NewRule

pub record ScheduleChange : Type 0 where
  pub name : Option Text
  pub description : Option (Option Text)
  pub rules : Option (List NewRule)

pub record NewPortRule : Type 0 where
  pub device_id : ℕ
  pub name : Text
  pub protocol : Text
  pub port : ℤ
  pub action : Text
  pub enabled : Bool

pub record PortRuleRecord : Type 0 where
  pub id : ℕ
  pub rule : NewPortRule

pub record CatalogStore (S : Type 0) : Type 0 where
  pub profiles : Read S (List ProfileRecord)
  pub create_profile : NewProfile → Call S ProfileRecord
  pub update_profile : ℕ → ProfileChange → Call S ProfileRecord
  pub delete_profile : ℕ → Call S (Unit {0})
  pub schedules : Read S (List ScheduleRecord)
  pub create_schedule : NewSchedule → Call S ScheduleRecord
  pub update_schedule : ℕ → ScheduleChange → Call S ScheduleRecord
  pub delete_schedule : ℕ → Call S (Unit {0})
  pub port_rules : ℕ → Read S (List PortRuleRecord)
  pub port_rule : ℕ → Read S (Option PortRuleRecord)
  pub create_port_rule : NewPortRule → Call S PortRuleRecord
  pub delete_port_rule : ℕ → Call S (Unit {0})

-- `apply mac ip rule`
pub record PortRuleEnforcer (S : Type 0) : Type 0 where
  pub apply : Text → Text → PortRuleRecord → Call S (Unit {0})
  pub remove : PortRuleRecord → Call S (Unit {0})

pub record Services (S : Type 0) : Type 0 where
  pub repository : CatalogStore S
  pub devices : Option (DeviceRepository S)
  pub port_enforcer : Option (PortRuleEnforcer S)

-- `id(value)`
unfoldable pub id : {S : Type 0} → ℤ → Call S ℕ
id value = if is_id value then pure (pos_part value) else throw invalid_id

abbrev pub is_day : ℤ → Bool
is_day (pos n) = leb n 6
is_day (negsuc n) = false

-- `rule(value)`
unfoldable pub rule : {S : Type 0} → NewRule → Call S NewRule
rule value =
    if not (is_day value.day_of_week)
    then throw invalid_day
    else if not (is_time value.start_time) || not (is_time value.end_time)
    then throw invalid_time
    else pure value

-- `data.rules.map(rule)`, where the first refused rule throws
unfoldable pub check_rules : {S : Type 0} → List NewRule → Call S (List NewRule)
unfolding rule
check_rules [] = pure []
check_rules (value ∷ values) = do
  checked ← rule value
  others ← check_rules values
  pure (checked ∷ others)

-- `data.rules===undefined?{}:{rules:data.rules.map(rule)}`
unfoldable pub check_change : {S : Type 0} → ScheduleChange → Call S ScheduleChange
unfolding check_rules
check_change input = elim (input.rules) [
  | none ↦ pure input
  | some rules ↦ check_rules rules >>= λ checked. pure (record input { rules = some checked })
]

abbrev pub is_port : ℤ → Bool
is_port (pos n) = leb 1 n && leb n 65535
is_port (negsuc n) = false

unfoldable pub is_port_rule : NewPortRule → Bool
is_port_rule input =
    (input.protocol == codes "tcp" || input.protocol == codes "udp")
    && is_port input.port
    && (input.action == codes "allow" || input.action == codes "block")

-- The device and its address, when both are known.
abbrev pub with_ip : Option Device → Option (Device × IpAddress)
with_ip none = none
with_ip (some d) = elim (d.ip) [ none ↦ none | some address ↦ some (d, address) ]

module _ {S : Type 0} (env : Services S) where
  open env use {repository, devices, port_enforcer}

  abbrev pub profiles : Read S (List ProfileRecord)
  profiles = repository.profiles

  unfoldable pub create_profile : NewProfile → Call S ProfileRecord
  create_profile input =
      if trim input.name == [] then throw profile_name_missing else repository.create_profile input

  unfoldable pub update_profile : ℤ → ProfileChange → Call S ProfileRecord
  unfolding id
  update_profile value input = id value >>= λ target. repository.update_profile target input

  unfoldable pub delete_profile : ℤ → Call S (Unit {0})
  unfolding id
  delete_profile value = id value >>= λ target. repository.delete_profile target

  abbrev pub schedules : Read S (List ScheduleRecord)
  schedules = repository.schedules

  unfoldable pub create_schedule : NewSchedule → Call S ScheduleRecord
  unfolding check_rules
  create_schedule input =
      if trim input.name == []
      then throw schedule_name_missing
      else (check_rules input.rules >>= λ checked.
          repository.create_schedule (record input { rules = checked }))

  unfoldable pub update_schedule : ℤ → ScheduleChange → Call S ScheduleRecord
  unfolding id check_change
  update_schedule value input = do
    target ← id value
    checked ← check_change input
    repository.update_schedule target checked

  unfoldable pub delete_schedule : ℤ → Call S (Unit {0})
  unfolding id
  delete_schedule value = id value >>= λ target. repository.delete_schedule target

  unfoldable pub port_rules : ℤ → Call S (List PortRuleRecord)
  unfolding id
  port_rules value = id value >>= λ target. ask (repository.port_rules target)

  unfoldable pub device_of : ℕ → Call S (Option Device)
  device_of id = elim devices [ none ↦ pure none | some known ↦ ask (known.find_by_id id) ]

  unfoldable pub enforce_rule : Bool → Device → IpAddress → PortRuleRecord → Call S (Unit {0})
  enforce_rule enabled d address created = elim port_enforcer [
    | none ↦ pure tt
    | some enforcer ↦ if enabled then enforcer.apply d.mac.value address.value created else pure tt
  ]

  -- The rule that is made for a device goes again when it cannot be enforced.
  unfoldable pub create_enforced : NewPortRule → Device → IpAddress → Call S PortRuleRecord
  unfolding enforce_rule
  create_enforced input d address = do
    created ← repository.create_port_rule input
    catch (enforce_rule input.enabled d address created)
        (λ e. repository.delete_port_rule created.id >> throw e)
    pure created

  unfoldable pub create_port_rule : NewPortRule → Call S PortRuleRecord
  unfolding device_of create_enforced
  create_port_rule input =
      if not (is_port_rule input)
      then throw invalid_port_rule
      else (device_of input.device_id >>= λ found. elim (with_ip found) [
        | none ↦ throw no_current_ip
        | some (d, address) ↦ create_enforced input d address
      ])

  unfoldable pub remove_rule : Option PortRuleRecord → Call S (Unit {0})
  remove_rule none = pure tt
  remove_rule (some found) = elim port_enforcer [
    | none ↦ pure tt
    | some enforcer ↦ enforcer.remove found
  ]

  unfoldable pub delete_port_rule : ℤ → Call S (Unit {0})
  unfolding id remove_rule
  delete_port_rule value = do
    target ← id value
    found ← ask (repository.port_rule target)
    remove_rule found
    repository.delete_port_rule target
