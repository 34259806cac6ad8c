-- ===== src/Rate/Tests.antt =====
-- Runs of the rate functions, and the theorems at concrete inputs.
use ayad_network_manager.Base.{◌<◌, ◌≡◌, refl, ◌↔◌, arith, codes, text_beq}
use ayad_network_manager.Base.Int.{pos}
use ayad_network_manager.Base.Effects.{ok, err}
use ayad_network_manager.Text.{trim, split, pad_end, pad_start, strip_end}
use ayad_network_manager.Text.Numerals.{read, to_radix}
use ayad_network_manager.Errors.{rate_precision, rate_not_positive}
use ayad_network_manager.Rate.{text, parse_rate_mbps, is_decimal, TrafficRate, to_mbps, to_tc_rate}
use ayad_network_manager.Rate.RoundTrip.{parse_rate_mbps-to_mbps}
use ayad_network_manager.Rate.Accepted.{Denotes, parse_rate_mbps_iff}

abbrev quarter : TrafficRate
quarter = record { milli_megabits_per_second = 1250 }

parse_padded : parse_rate_mbps (text (codes " 1.25 ")) ≡ ok (pos 1250)
unfolding parse_rate_mbps is_decimal trim split pad_end read text_beq
parse_padded = refl

parse_too_precise : parse_rate_mbps (text (codes "0.0001")) ≡ err rate_precision
unfolding parse_rate_mbps is_decimal trim split pad_end read text_beq
parse_too_precise = refl

parse_zero : parse_rate_mbps (text (codes "0.000")) ≡ err rate_not_positive
unfolding parse_rate_mbps is_decimal trim split pad_end read text_beq
parse_zero = refl

print_quarter : to_mbps quarter ≡ codes "1.25"
unfolding to_mbps to_radix pad_start strip_end
print_quarter = refl

tc_quarter : to_tc_rate quarter ≡ codes "1250000bit"
unfolding to_tc_rate to_radix
tc_quarter = refl

parse_rate_mbps-to_mbps_example : parse_rate_mbps (text (to_mbps quarter)) ≡ ok (pos 1250)
parse_rate_mbps-to_mbps_example = parse_rate_mbps-to_mbps quarter (omega arith)

parse_rate_mbps_iff_example :
    (parse_rate_mbps (text (codes "1.5")) ≡ ok (pos 1500))
    ↔ ((0 < 1500) × Denotes (trim (codes "1.5")) 1500)
parse_rate_mbps_iff_example = parse_rate_mbps_iff (codes "1.5") 1500
