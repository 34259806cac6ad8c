-- ===== src/Traffic/Tests.antt =====
-- Runs of the traffic services on kernels and stores that are functions, and the theorems there.
use ayad_network_manager.Base.{
  ℕ, ◌*◌, true, ◌&&◌, Option, none, some, List, [], ◌∷◌, ◌≡◌, refl, Text, codes, ◌==◌, nat_eq,
  text_eq, text_beq, if◌then◌else◌,
}
use ayad_network_manager.Base.Int.{ℤ, pos, pos_part}
use ayad_network_manager.Base.Map.{has, add}
use ayad_network_manager.Base.Effects.{ok, pure}
use ayad_network_manager.Errors.{Error}
use ayad_network_manager.Text.{
  trim, trim_start, strip_end, is_space, is_digit, is_hex, to_lower, lower_code, take_while, take,
}
use ayad_network_manager.Text.Numerals.{read, read_from, digit_value, to_radix, digit_code}
use ayad_network_manager.Domain.TcClassId
use ayad_network_manager.Domain.TcClassId.{Direction, download, upload, from_mac, strip_zeros}
use ayad_network_manager.Domain.Device.{Device}
use ayad_network_manager.Ports.{Call}
use ayad_network_manager.Traffic.{TrafficEnforcer, limit, limit_bits, reconcile_state}
use ayad_network_manager.Traffic.Reconciliation
use ayad_network_manager.Traffic.Reconciliation.{
  class_of, expected, enforceable, is_enforceable, limit_direction, limit_device, limit_all,
  converge, reconcile_targets, reconcile,
}
use ayad_network_manager.Traffic.Kernel.{same_direction, IsEnforcer, wanted}
use ayad_network_manager.Traffic.Converges.{reconcile-wanted}
use ayad_network_manager.Traffic.Returns.{IsReady, reconcile_isolates}
use ayad_network_manager.Traffic.Enforcement.{set_limit, clear_known}
use ayad_network_manager.Traffic.Limits.{set_limit_persists, clear_limit_persists}
use ayad_network_manager.Traffic.Memory.{
  desk, two_megabits, one_device, no_limits, written, enforcement, enforcement-IsLimitView,
  desk_resolved, rate_accepted,
}

-- The rate of each class.
abbrev Rates : Type 0
Rates = Direction → Text → Option ℕ

abbrev put_rate : Direction → Text → ℕ → Rates → Rates
put_rate direction class bits rates dir c =
    if same_direction direction dir && class == c then some bits else rates dir c

abbrev keep_rates : Direction → List Text → Rates → Rates
keep_rates direction classes rates dir c =
    if same_direction direction dir
    then (if has c classes then rates dir c else none)
    else rates dir c

abbrev digest : Text → Text
digest text = codes "0a01ffff"

abbrev class_in : Direction → Device → Text
class_in direction d = TcClassId.normalize (from_mac digest d.mac.value direction)

abbrev kernel_limit : Direction → Device → ℤ → Call Rates (Unit {0})
kernel_limit direction d rate rates =
    (ok tt, put_rate direction (class_in direction d) (pos_part rate * 1000) rates)

abbrev kernel_limit_bits : Direction → Device → ℕ → Call Rates (Unit {0})
kernel_limit_bits direction d bits rates =
    (ok tt, put_rate direction (class_in direction d) bits rates)

abbrev kernel : TrafficEnforcer Rates
kernel = record {
  initialize_base_state = pure tt;
  clear_base_state = λ rates. (ok tt, λ dir c. none);
  limit_download = kernel_limit download;
  limit_upload = kernel_limit upload;
  limit_download_bits = kernel_limit_bits download;
  limit_upload_bits = kernel_limit_bits upload;
  clear_download = λ d. pure tt;
  clear_upload = λ d. pure tt;
  reconcile_download_state = λ classes rates. (ok tt, keep_rates download classes rates);
  reconcile_upload_state = λ classes rates. (ok tt, keep_rates upload classes rates);
}

abbrev cycle : Reconciliation.Services Rates
cycle = record {
  devices = one_device;
  policies = record {
    find_by_device_id = λ id s. ok (some two_megabits);
    upsert = λ id change. pure tt;
  };
  enforcer = kernel;
  throttle_rate = record { is_valid = true; milli_megabits = 500; bits = 500000 };
  sha256 = digest;
}

limit-rate :
    (direction : Direction) (d : Device) (milli : ℕ) (s : Rates)
    → (dir : Direction) (c : Text)
    → (limit kernel direction d (pos milli) s).1 dir c ≡ (
        if same_direction direction dir && class_in direction d == c
        then some (milli * 1000)
        else s dir c)
limit-rate download d milli s dir c = refl
limit-rate upload d milli s dir c = refl

limit_bits-rate :
    (direction : Direction) (d : Device) (bits : ℕ) (s : Rates)
    → (dir : Direction) (c : Text)
    → (limit_bits kernel direction d bits s).1 dir c
      ≡ (if same_direction direction dir && class_in direction d == c then some bits else s dir c)
limit_bits-rate download d bits s dir c = refl
limit_bits-rate upload d bits s dir c = refl

reconcile_state-rate :
    (direction : Direction) (classes : List Text) (s : Rates)
    → (dir : Direction) (c : Text)
    → (reconcile_state kernel direction classes s).1 dir c ≡ (
        if same_direction direction dir then (if has c classes then s dir c else none) else s dir c)
reconcile_state-rate download classes s dir c = refl
reconcile_state-rate upload classes s dir c = refl

cycle-IsEnforcer : IsEnforcer cycle (λ rates. rates)
unfolding class_of
cycle-IsEnforcer = record {
  limit_rate = λ direction d milli s h. limit-rate direction d milli s;
  limit_bits_rate = λ direction d bits s h. limit_bits-rate direction d bits s;
  reconcile_rate = λ direction classes s h. reconcile_state-rate direction classes s;
  clear_base_rate = λ s h dir c. refl;
}

cycle-IsReady : IsReady cycle
cycle-IsReady = record {
  find_all_answers = λ s. (desk ∷ [], refl);
  policy_answers = λ id s. (some two_megabits, refl);
  initialize_returns = λ s. (tt, s, refl);
  clear_returns = λ s. (tt, (λ dir c. none), refl);
  rate_is_valid = refl;
}

-- A class of a device that is gone, with a rate.
abbrev stale : Rates
stale dir c = some 1

abbrev converged : Rates
converged =
    keep_rates upload []
      (keep_rates download (codes "a01" ∷ []) (put_rate download (codes "a01") 2000000 stale))

first_cycle : reconcile cycle stale ≡ (ok [], converged)
unfolding reconcile enforceable is_enforceable reconcile_targets converge limit_all limit_device
    limit_direction expected class_of from_mac TcClassId.normalize strip_zeros trim trim_start
    strip_end is_space to_lower lower_code take take_while is_hex is_digit read read_from
    digit_value to_radix digit_code text_beq add
first_cycle = refl

reconcile-wanted_example :
    converged download (codes "a01") ≡ wanted cycle stale download (codes "a01") (desk ∷ [])
reconcile-wanted_example =
    reconcile-wanted cycle cycle-IsEnforcer (desk ∷ []) stale converged refl first_cycle download
      (codes "a01")

reconcile_isolates_example :
    (failures : List Error) × (t : Rates) × (reconcile cycle stale ≡ (ok failures, t))
reconcile_isolates_example = reconcile_isolates cycle cycle-IsReady stale

set_limit_persists_example :
    (set_limit enforcement download 0 (codes "7") (pos 2000) no_limits).1 7 ≡ some 2000
set_limit_persists_example =
    set_limit_persists enforcement enforcement-IsLimitView 0 (codes "7") (pos 2000) desk no_limits
      no_limits (written 7 (some (some 2000)) no_limits) desk_resolved refl rate_accepted refl 7

clear_limit_persists_example : (clear_known enforcement download desk (λ k. some 2000)).1 7 ≡ none
clear_limit_persists_example =
    clear_limit_persists enforcement enforcement-IsLimitView desk (λ k. some 2000)
      (written 7 (some none) (λ k. some 2000)) refl 7
