-- ===== src/Ports.antt =====
-- The interfaces that the application services are given: backend/src/domain/repositories/ and
-- backend/src/application/enforcement/DeviceBlocker.ts. A service works on the state `S` that its
-- collaborators share; a read gives its answer or fails and writes nothing, every other call may
-- also fail after it has written. A call that an object may lack is an `Option`.
use ayad_network_manager.Base.{◌≡◌, refl, ℕ, Bool, true, false, Option, none, some, List, Text}
use ayad_network_manager.Base.Effects.{Result, ok, err, Action, pure, throw, ◌>>=◌}
use ayad_network_manager.Errors.{Error}
use ayad_network_manager.Domain.MacAddress.{MacAddress}
use ayad_network_manager.Domain.Device.{Device, DevicePolicy, IdentitySource}

abbrev pub Call : Type 0 → Type 0 → Type 0
Call S A = Action S Error A

abbrev pub Read : Type 0 → Type 0 → Type 0
Read S A = S → Result Error A

module _ {S A : Type 0} where
  abbrev pub ask : Read S A → Call S A
  ask r s = (r s, s)

  abbrev pub lift : Result Error A → Call S A
  lift r s = (r, s)

  abbrev pub or_throw : Option A → Error → Call S A
  or_throw none e s = (err e, s)
  or_throw (some a) e s = (ok a, s)

  -- `f?.(x)`
  abbrev pub call_if : Option (A → Call S (Unit {0})) → A → Call S (Unit {0})
  call_if none x = pure tt
  call_if (some f) x = f x

-- A call of a collaborator, which does not reach the service's own state `X`.
abbrev pub beside : {X S A : Type 0} → Call S A → Call (X × S) A
beside m (own, s) = let (r, t) = m s in (r, (own, t))

-- Inversion of a read and what follows it.
pub ask_ok :
    {S A B : Type 0} (r : Read S A) (f : A → Call S B) {s t : S} {b : B}
    → (ask r >>= f) s ≡ (ok b, t)
    → (a : A) × (r s ≡ ok a) × (f a s ≡ (ok b, t))
ask_ok {S} {A} {B} r f {s} {t} {b} h = go (r s) refl h
  where
    go :
        (q : Result Error A)
        → r s ≡ q
        → elim q [ ok a ↦ f a s | err e ↦ (err e, s) ] ≡ (ok b, t)
        → (a : A) × (r s ≡ ok a) × (f a s ≡ (ok b, t))
    go (ok a) e k = (a, e, k)
    go (err x) e k = absurd (cc)

-- `if (c) throw e;`
abbrev pub throw_if : {S : Type 0} → Bool → Error → Call S (Unit {0})
throw_if true e = throw e
throw_if false e = pure tt

-- `undefined` leaves a column as it is.
pub record DeviceChange : Type 0 where
  pub l2_visible : Option Bool
  pub identity_validated : Option Bool
  pub identity_source : Option IdentitySource

pub record PolicyChange : Type 0 where
  pub blocked : Option Bool
  pub download_limit : Option (Option ℕ)
  pub upload_limit : Option (Option ℕ)
  pub quota : Option (Option ℕ)
  pub quota_period : Option (Option Text)
  pub quota_action : Option (Option Text)
  pub quota_enforced_action : Option (Option Text)
  pub profile_id : Option (Option ℕ)
  pub schedule_id : Option (Option ℕ)

abbrev pub no_change : PolicyChange
no_change = record {
  blocked = none;
  download_limit = none;
  upload_limit = none;
  quota = none;
  quota_period = none;
  quota_action = none;
  quota_enforced_action = none;
  profile_id = none;
  schedule_id = none;
}

pub record DeviceRepository (S : Type 0) : Type 0 where
  pub find_by_mac : MacAddress → Read S (Option Device)
  pub find_by_id : ℕ → Read S (Option Device)
  pub find_all : Read S (List Device)
  pub update : ℕ → DeviceChange → Call S (Unit {0})

pub record DevicePolicyRepository (S : Type 0) : Type 0 where
  pub find_by_device_id : ℕ → Read S (Option DevicePolicy)
  pub upsert : ℕ → PolicyChange → Call S (Unit {0})

pub record DeviceBlocker (S : Type 0) : Type 0 where
  pub block : MacAddress → Option Text → Call S (Unit {0})
  pub unblock : MacAddress → Option Text → Call S (Unit {0})
  pub block_ip : Option (Text → Call S (Unit {0}))
  pub unblock_ip : Option (Text → Call S (Unit {0}))
  pub get_blocked_macs : Option (Read S (List Text))
  pub get_blocked_ips : Option (Read S (List Text))

pub record Binding : Type 0 where
  pub device_id : ℕ
  pub ip : Text

-- `record_block id mac ip reason`
pub record BlockedDeviceRepository (S : Type 0) : Type 0 where
  pub record_block : ℕ → Option Text → Option Text → Option Text → Call S (Unit {0})
  pub release_block : ℕ → Call S (Unit {0})
  pub active_ips : ℕ → Read S (List Text)
  pub active_bindings : Read S (List Binding)
  pub release_ip : Option (ℕ → Text → Text → Call S (Unit {0}))

-- What an audit entry says beside its action.
pub data Details : Type 0 where
  success : Details
  -- the error, and whether the entry says that the desired state was persisted
  pending : Error → Bool → Details
  failure : Error → Details
  acknowledged : Text → Details
  target : Text → Text → Details
  -- a rate in thousandths of a megabit in a second, and how setting it ended
  limited : ℕ → Details
  limit_failed : ℕ → Error → Details

pub record AuditEntry : Type 0 where
  pub action : Text
  pub mac : Option Text
  pub device_id : Option ℕ
  pub actor : Option Text
  pub details : Details

pub record OperationsRepository (S : Type 0) : Type 0 where
  pub audit : AuditEntry → Call S (Unit {0})
