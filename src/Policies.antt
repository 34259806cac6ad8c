-- ===== src/Policies.antt =====
-- backend/src/domain/repositories/PolicyCatalogRepository.ts: profiles and schedules, as the services
-- of backend/src/application/policies/ read them, and what these services share.
pub mod Window
pub mod Schedule
pub mod Held
pub mod Windows
pub mod Limits
pub mod Catalog
pub mod PortRules
pub mod Profile
pub mod Taken
pub mod Followed
pub mod Patch
pub mod Patched
pub mod Refused
mod PatchTests
mod PortRulesTests
mod FollowedTests
mod Tests
use ayad_network_manager.Base.{
  ℕ, Bool, Option, none, some, List, [], ◌∷◌, Text, nat_eq, if◌then◌else◌,
}
use ayad_network_manager.Ports.{Call, Read}

-- Limits are thousandths of a megabit in a second, and quotas are bytes; neither is negative.
pub record ProfileRecord : Type 0 where
  pub id : ℕ
  pub name : Text
  pub description : Option Text
  pub download_limit : Option ℕ
  pub upload_limit : Option ℕ
  pub quota : Option ℕ
  pub quota_period : Option Text

pub record ScheduleRuleRecord : Type 0 where
  pub id : ℕ
  pub day_of_week : ℕ
  pub start_time : Text
  pub end_time : Text
  pub download_limit : Option ℕ
  pub upload_limit : Option ℕ
  pub blocked : Option Bool

pub record ScheduleRecord : Type 0 where
  pub id : ℕ
  pub name : Text
  pub description : Option Text
  pub rules : List ScheduleRuleRecord

-- The reads of the catalog that the services make.
pub record PolicyCatalogRepository (S : Type 0) : Type 0 where
  pub profiles : Read S (List ProfileRecord)
  pub schedules : Read S (List ScheduleRecord)

-- The calls of `TrafficEnforcementService` that the services make.
pub record TrafficLimits (S : Type 0) : Type 0 where
  pub limit_download : Text → ℕ → Call S (Unit {0})
  pub limit_upload : Text → ℕ → Call S (Unit {0})
  pub clear_download : Text → Call S (Unit {0})
  pub clear_upload : Text → Call S (Unit {0})

-- `array.find(test)`
abbrev pub find {ℓ} : {A : Type ℓ} → (A → Bool) → List A → Option A
find test [] = none
find test (x ∷ xs) = if test x then some x else find test xs

-- `a ?? b`
abbrev pub or_else {ℓ} : {A : Type ℓ} → Option A → Option A → Option A
or_else none b = b
or_else (some a) b = some a
