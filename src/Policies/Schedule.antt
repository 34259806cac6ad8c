-- ===== src/Policies/Schedule.antt =====
-- backend/src/application/policies/ScheduleEnforcementService.ts. The service's state is its map of
-- scheduled states, beside the state of its collaborators.
use ayad_network_manager.Base.{
  ℕ, Bool, true, false, ◌&&◌, Option, none, some, List, Text, codes, ◌==◌, nat_eq, text_eq, bool_eq,
  if◌then◌else◌,
}
use ayad_network_manager.Base.Map.{lookup, insert, erase}
use ayad_network_manager.Base.Effects.{ok, pure, ◌>>=◌, ◌>>◌, for_each}
use ayad_network_manager.Errors.{scheduled_block_needs_ip}
use ayad_network_manager.Domain.MacAddress
use ayad_network_manager.Domain.Device.{Device, DevicePolicy}
use ayad_network_manager.Ports.{
  Call, ask, lift, or_throw, call_if, beside, DeviceRepository, DevicePolicyRepository,
  DeviceBlocker, OperationsRepository, target,
}
use ayad_network_manager.Policies.{
  ScheduleRuleRecord, ScheduleRecord, PolicyCatalogRepository, TrafficLimits, find, or_else,
}
use ayad_network_manager.Policies.Window.{in_window}

-- `ScheduledTarget`, by its kind
pub data Target : Type 0 where
  mac ip : Text → Target

unfoldable pub same_target : Target → Target → Bool
same_target (mac a) (mac b) = a == b
same_target (ip a) (ip b) = a == b
same_target _ _ = false

pub record ScheduledState : Type 0 where
  pub blocked : Bool
  pub at : Target

abbrev pub States : Type 0
States = List (ℕ × ScheduledState)

-- The services that the schedules are given, and the local time of a run.
pub record Services (S : Type 0) : Type 0 where
  pub devices : DeviceRepository S
  pub policies : DevicePolicyRepository S
  pub catalog : PolicyCatalogRepository S
  pub traffic : TrafficLimits S
  pub blocker : DeviceBlocker S
  pub operations : Option (OperationsRepository S)

unfoldable pub target_for : Device → Option Target
target_for d =
    if d.l2_visible
    then some (mac d.mac.value)
    else elim (d.ip) [ none ↦ none | some address ↦ some (ip (address.value)) ]

-- `schedules.find(...)?.rules.find(...)`, for a policy whose schedule is `id`
unfoldable pub active_rule : ℕ → ℕ → List ScheduleRecord → ℕ → Option ScheduleRuleRecord
unfolding in_window
active_rule day minutes schedules id = elim (find (λ value. value.id == id) schedules) [
  | none ↦ none
  | some schedule ↦ find (λ rule. rule.day_of_week == day && in_window rule minutes) schedule.rules
]

-- `policy?.scheduleId`, where 0 is none
unfoldable pub schedule_of : Option DevicePolicy → Option ℕ
schedule_of none = none
schedule_of (some p) = elim (p.schedule_id) [
  | none ↦ none
  | some id ↦ if id == 0 then none else some id
]

-- `active.blocked ?? policy.blocked`
abbrev pub asks_block : ScheduleRuleRecord → DevicePolicy → Bool
asks_block rule p = elim (rule.blocked) [ none ↦ p.blocked | some blocked ↦ blocked ]

module _ {S : Type 0} (env : Services S) where
  open env use {devices, policies, catalog, traffic, blocker}

  -- The kernel's part of `enforceTarget`.
  unfoldable pub switch_target : Target → Bool → Call S (Unit {0})
  switch_target (mac value) true = lift (MacAddress.create value) >>= λ m. blocker.block m none
  switch_target (mac value) false = lift (MacAddress.create value) >>= λ m. blocker.unblock m none
  switch_target (ip value) true =
      or_throw blocker.block_ip scheduled_block_needs_ip >>= λ block_ip. block_ip value
  switch_target (ip value) false = call_if blocker.unblock_ip value

  unfoldable pub audit_target : Target → Bool → Call S (Unit {0})
  audit_target at blocked = elim (env.operations) [
    | none ↦ pure tt
    | some repository ↦ repository.audit (record {
      action = if blocked then codes "schedule-block-device" else codes "schedule-unblock-device";
      mac = none;
      device_id = none;
      actor = some (codes "system");
      details = elim at [ mac v ↦ target (codes "mac") v | ip v ↦ target (codes "ip") v ];
    })
  ]

  unfoldable pub enforce_target : Target → Bool → Call S (Unit {0})
  unfolding switch_target audit_target
  enforce_target at blocked = switch_target at blocked >> audit_target at blocked

  -- `this.scheduledStates.set(id, state)` and `.delete(id)`
  abbrev pub remember : ℕ → ScheduledState → Call (States × S) (Unit {0})
  remember id state (states, s) = (ok tt, (insert id state states, s))

  abbrev pub forget : ℕ → Call (States × S) (Unit {0})
  forget id (states, s) = (ok tt, (erase id states, s))

  -- `if (previous && !sameTarget(previous.target, target)) await this.enforceTarget(previous.target, false);`
  unfoldable pub leave_target : ScheduledState → Target → Call S (Unit {0})
  leave_target previous to =
      if same_target previous.at to then pure tt else enforce_target previous.at false

  -- The writes of a run inside a window, for a device that has a target.
  unfoldable pub enter : Option ScheduledState → Target → Bool → Call S (Unit {0})
  unfolding leave_target
  enter none to blocked = enforce_target to blocked
  enter (some previous) to blocked =
      if previous.blocked == blocked && same_target previous.at to
      then pure tt
      else (leave_target previous to >> enforce_target to blocked)

  -- The writes of the first run after a window.
  unfoldable pub restore : ScheduledState → Option Target → Bool → Call S (Unit {0})
  unfolding leave_target
  restore previous current blocked =
      let to = elim current as (λ _. Target) [ none ↦ previous.at | some t ↦ t ] in
      if previous.blocked == blocked
      then pure tt
      else (leave_target previous to >> enforce_target to blocked)

  -- The block of one device, with what the service remembers of it.
  unfoldable pub settle_block :
      Device
      → DevicePolicy
      → Option ScheduleRuleRecord
      → Option ScheduledState
      → Call (States × S) (Unit {0})
  unfolding enter restore
  settle_block d p (some rule) previous = elim (target_for d) [
    | none ↦ pure tt
    | some to ↦
        let blocked = asks_block rule p in
        beside (enter previous to blocked) >> remember d.id (record { blocked = blocked; at = to })
  ]
  settle_block d p none none = pure tt
  settle_block d p none (some previous) =
      beside (restore previous (target_for d) p.blocked) >> forget d.id

  -- One direction of the limits: the rule's or the policy's.
  unfoldable pub settle_limit :
      Option ℕ → Option ℕ → (ℕ → Call S (Unit {0})) → Call S (Unit {0}) → Call S (Unit {0})
  settle_limit of_rule of_policy set_it clear_it = elim (or_else of_rule of_policy) [
    | some rate ↦ set_it rate
    | none ↦ elim of_policy [ none ↦ pure tt | some rate ↦ clear_it ]
  ]

  -- `active?.downloadLimit`, `active?.uploadLimit`
  abbrev pub rule_limit : Option ScheduleRuleRecord → (ScheduleRuleRecord → Option ℕ) → Option ℕ
  rule_limit none field = none
  rule_limit (some rule) field = field rule

  unfoldable pub settle_limits :
      Device → DevicePolicy → Option ScheduleRuleRecord → Call S (Unit {0})
  unfolding settle_limit
  settle_limits d p active = elim (d.ip) [
    | none ↦ pure tt
    | some address ↦
        settle_limit (rule_limit active (λ r. r.download_limit)) p.download_limit
          (traffic.limit_download d.mac.value) (traffic.clear_download d.mac.value)
        >> settle_limit (rule_limit active (λ r. r.upload_limit)) p.upload_limit
            (traffic.limit_upload d.mac.value) (traffic.clear_upload d.mac.value)
  ]

  unfoldable pub settle_known :
      Device → DevicePolicy → Option ScheduleRuleRecord → Call (States × S) (Unit {0})
  unfolding settle_block settle_limits
  settle_known d p active (states, s) =
      (settle_block d p active (lookup d.id states) >> beside (settle_limits d p active))
        (states, s)

  -- One round of the loop over the devices.
  unfoldable pub settle : ℕ → ℕ → List ScheduleRecord → Device → Call (States × S) (Unit {0})
  unfolding settle_known schedule_of
  settle day minutes schedules d = beside (ask (policies.find_by_device_id d.id)) >>= λ policy.
      elim policy [
        | none ↦ pure tt
        | some p ↦ elim (schedule_of (some p)) [
          | none ↦ pure tt
          | some id ↦ settle_known d p (active_rule day minutes schedules id)
        ]
      ]

  -- A run at the day of the week and the minute of the day that the clock says.
  unfoldable pub reconcile : ℕ → ℕ → Call (States × S) (Unit {0})
  unfolding settle
  reconcile day minutes = do
    schedules ← beside (ask (catalog.schedules))
    all_devices ← beside (ask (devices.find_all))
    for_each all_devices (settle day minutes schedules)
