-- ===== src/Rate.antt =====
-- Traffic rates, in thousandths of a megabit per second:
-- backend/src/application/enforcement/TrafficRateParser.ts,
-- backend/src/infrastructure/enforcement/TrafficRate.ts,
-- backend/src/application/enforcement/DefaultTrafficPolicyValidator.ts, and `formatRateMbps` of
-- backend/src/application/devices/DeviceService.ts.

pub mod Format
pub mod RoundTrip
pub mod Accepted
mod Tests
use ayad_network_manager.Base.{
  ℕ, ◌+◌, ◌*◌, ◌/◌, ◌%◌, Bool, true, false, ◌&&◌, Option, none, some, List, [], ◌∷◌, ◌++◌, Text,
  codes, length, ltb, leb, ◌==◌, nat_eq, text_eq, if◌then◌else◌, is_some,
}
use ayad_network_manager.Base.Int.{ℤ, pos, leb_ℤ, times, pos_part}
use ayad_network_manager.Base.Effects.{Result, ok, err}
use ayad_network_manager.Text.{is_digit, trim, split, pad_start, pad_end, strip_end}
use ayad_network_manager.Text.Numerals.{to_decimal, read}
use ayad_network_manager.Errors.{
  Error, invalid_rate, rate_precision, rate_not_positive, device_without_ip, rate_above_uplink,
}

-- What `parseRateMbps` is given: a `bigint`, or what `String(value)` makes of a string or number.
pub data RateInput : Type 0 where
  big : ℤ → RateInput
  text : Text → RateInput

-- `\d+$`, with a flag for the digits that were read before
digits_end : Bool → Text → Bool
digits_end seen [] = seen
digits_end seen (c ∷ s) = is_digit c && digits_end true s

-- `\d+(?:\.\d+)?$`, with a flag for the digits that were read before
decimal_end : Bool → Text → Bool
decimal_end seen [] = seen
decimal_end seen (c ∷ s) =
    if is_digit c then decimal_end true s else c == b'.' && seen && digits_end false s

-- `/^\d+(?:\.\d+)?$/.test`
pub is_decimal : Text → Bool
unfolding decimal_end digits_end is_digit
is_decimal s = decimal_end false s

-- `const [wholePart, fractionPart = ""] = parts`
whole_part : List Text → Text
whole_part [] = []
whole_part (w ∷ _) = w

fraction_part : List Text → Text
fraction_part (_ ∷ f ∷ _) = f
fraction_part _ = []

-- The value in thousandths of the two parts, after the test of the format.
pub from_parts : Text → Text → Text → Result Error ℤ
from_parts given whole fraction =
    if whole == []
    then err (invalid_rate given)
    else if ltb 3 (length fraction)
    then err rate_precision
    else let result = read 10 whole * 1000 + read 10 (pad_end 3 b'0' fraction) in
      if leb result 0 then err rate_not_positive else ok (pos result)

unfoldable pub parse_rate_mbps : RateInput → Result Error ℤ
unfolding from_parts whole_part fraction_part
parse_rate_mbps (big n) = ok n
parse_rate_mbps (text given) =
    let s = trim given in
    if is_decimal s
    then from_parts given (whole_part (split b'.' s)) (fraction_part (split b'.' s))
    else err (invalid_rate given)

is_zero_digit : ℕ → Bool
is_zero_digit c = c == b'0'

-- `fraction.toString().padStart(3, "0").replace(/0+$/, "")`
fraction_digits : ℕ → Text
unfolding is_zero_digit
fraction_digits n = strip_end is_zero_digit (pad_start 3 b'0' (to_decimal n))

-- `TrafficRate`, whose constructor is private
pub record TrafficRate : Type 0 where
  pub milli_megabits_per_second : ℕ

unfoldable pub from_mbps : ℤ → Result Error TrafficRate
from_mbps n =
    if leb_ℤ n (pos 0)
    then err rate_not_positive
    else ok (record { milli_megabits_per_second = pos_part n })

unfoldable pub from_whole_mbps : ℤ → Result Error TrafficRate
from_whole_mbps n =
    if leb_ℤ n (pos 0)
    then err rate_not_positive
    else ok (record { milli_megabits_per_second = pos_part n * 1000 })

unfoldable pub to_bits_per_second : TrafficRate → ℕ
to_bits_per_second r = r.milli_megabits_per_second * 1000

unfoldable pub to_tc_rate : TrafficRate → Text
unfolding to_bits_per_second
to_tc_rate r = to_decimal (to_bits_per_second r) ++ codes "bit"

unfoldable pub to_mbps : TrafficRate → Text
unfolding fraction_digits
to_mbps r =
    let whole = r.milli_megabits_per_second / 1000 in
    let fraction = r.milli_megabits_per_second % 1000 in
    if fraction == 0
    then to_decimal whole
    else to_decimal whole ++ (codes "." ++ fraction_digits fraction)

-- `formatMbps` of the validator, called on a rate above zero
unfoldable pub format_mbps : ℕ → Text
unfolding fraction_digits
format_mbps milli =
    let whole = milli / 1000 in
    let fraction = milli % 1000 in
    if fraction == 0
    then to_decimal whole
    else to_decimal whole ++ (codes "." ++ fraction_digits fraction)

-- `formatRateMbps` of the device views, on a limit that the validator let through
unfoldable pub format_rate_mbps : Option ℕ → Option Text
unfolding fraction_digits
format_rate_mbps none = none
format_rate_mbps (some milli) =
    let whole = milli / 1000 in
    let fraction = milli % 1000 in
    if fraction == 0
    then some (to_decimal whole)
    else some (to_decimal whole ++ (codes "." ++ fraction_digits fraction))

-- `DefaultTrafficPolicyValidator.validate`, on the device's address texts and `input.rateMbps`
unfoldable pub validate : ℤ → Text → Option Text → ℤ → Result Error (Unit {0})
validate uplink_bandwidth_mbps mac ip rate_mbps =
    if is_some ip
    then if leb_ℤ rate_mbps (pos 0)
      then err rate_not_positive
      else if leb_ℤ rate_mbps (times uplink_bandwidth_mbps 1000)
      then ok tt
      else err (rate_above_uplink (format_mbps (pos_part rate_mbps)) uplink_bandwidth_mbps)
    else err (device_without_ip mac)
