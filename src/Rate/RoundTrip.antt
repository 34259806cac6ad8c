-- ===== src/Rate/RoundTrip.antt =====
-- What `toMbps` prints, `parseRateMbps` reads.
use ayad_network_manager.Base.{
  ℕ, ◌+◌, ◌*◌, ◌/◌, ◌%◌, ◌≤◌, ◌<◌, ◌≡◌, refl, ◌∙◌, ap, Bool, true, false, ◌&&◌, ◌||◌, [], ◌∷◌, ◌++◌,
  arith, Text, ◌==◌, nat_eq, all, leb, length, holds_under, holds_under_each, Bool-cases, inl, inr,
  text_eq, text_beq,
}
use ayad_network_manager.Base.Int.{pos}
use ayad_network_manager.Base.Effects.{ok}
use ayad_network_manager.Text.{is_digit, pad_end, pad_start, strip_end}
use ayad_network_manager.Text.Numerals.{
  to_radix, to_decimal, read, read-to_decimal, to_decimal-is_digit, to_radix-cons,
}
use ayad_network_manager.Rate.{
  text, from_parts, parse_rate_mbps, fraction_digits, TrafficRate, to_mbps,
}
use ayad_network_manager.Rate.Format.{
  trim_whole, trim_fraction, is_decimal_whole, is_decimal_fraction, split_whole, split_fraction,
}

-- What the printed digits of a fraction must satisfy to be read back.
fraction_good : ℕ → Bool
fraction_good n =
    n == 0
    || all is_digit (fraction_digits n)
      && leb (length (fraction_digits n)) 3
      && leb 1 (length (fraction_digits n))
      && read 10 (pad_end 3 b'0' (fraction_digits n)) == n

fraction_table : holds_under fraction_good 1000 ≡ true
unfolding holds_under fraction_good fraction_digits read pad_end to_radix is_digit strip_end
    pad_start
fraction_table = refl

-- The value of the parts of a text in one of the two shapes.
pub parse_whole :
    (c : ℕ) (w : Text)
    → all is_digit (c ∷ w) ≡ true
    → parse_rate_mbps (text (c ∷ w)) ≡ from_parts (c ∷ w) (c ∷ w) []
unfolding parse_rate_mbps
parse_whole c w h = rw (trim_whole (c ∷ w) h, is_decimal_whole c w h, split_whole (c ∷ w) h)

pub parse_fraction :
    (c : ℕ) (w : Text) (d : ℕ) (f : Text)
    → all is_digit (c ∷ w) ≡ true
    → all is_digit (d ∷ f) ≡ true
    → parse_rate_mbps (text ((c ∷ w) ++ b'.' ∷ d ∷ f))
      ≡ from_parts ((c ∷ w) ++ b'.' ∷ d ∷ f) (c ∷ w) (d ∷ f)
unfolding parse_rate_mbps
parse_fraction c w d f h k = rw (
  trim_fraction (c ∷ w) (d ∷ f) h k,
  is_decimal_fraction c w d f h k,
  split_fraction (c ∷ w) (d ∷ f) h k,
)

from_parts_whole :
    (given : Text) (c : ℕ) (w : Text)
    → 0 < read 10 (c ∷ w)
    → from_parts given (c ∷ w) [] ≡ ok (pos (read 10 (c ∷ w) * 1000))
unfolding from_parts pad_end read text_beq
from_parts_whole given c w h = ground arith

from_parts_fraction :
    (given : Text) (c : ℕ) (w f : Text) (v : ℕ)
    → length f ≤ 3
    → read 10 (pad_end 3 b'0' f) ≡ v
    → 0 < v
    → from_parts given (c ∷ w) f ≡ ok (pos (read 10 (c ∷ w) * 1000 + v))
unfolding from_parts text_beq
from_parts_fraction given c w f v short value positive = ground arith

-- A numeral without a fraction is a number of megabits.
parse_numeral : (n : ℕ) → 0 < n → parse_rate_mbps (text (to_decimal n)) ≡ ok (pos (n * 1000))
parse_numeral n h =
    let (d, s, e) = to_radix-cons 10 n in
    let value : read 10 (d ∷ s) ≡ n = (rw e at (read-to_decimal n)) in
    let digits : all is_digit (d ∷ s) ≡ true = (rw e at (to_decimal-is_digit n)) in
    rw e (
      parse_whole d s digits
      ∙ from_parts_whole (d ∷ s) d s (omega (arith, value))
      ∙ ap (λ v. ok (pos (v * 1000))) value)

-- With up to three more digits it is a number of thousandths.
parse_numeral_fraction :
    (n : ℕ) (g : Text) (v : ℕ)
    → all is_digit g ≡ true
    → 1 ≤ length g
    → length g ≤ 3
    → read 10 (pad_end 3 b'0' g) ≡ v
    → 0 < v
    → parse_rate_mbps (text (to_decimal n ++ b'.' ∷ g)) ≡ ok (pos (n * 1000 + v))
parse_numeral_fraction n [] v digits some_digit short value h = absurd (omega arith)
parse_numeral_fraction n (x ∷ g) v digits some_digit short value h =
    let (d, s, e) = to_radix-cons 10 n in
    let whole : read 10 (d ∷ s) ≡ n = (rw e at (read-to_decimal n)) in
    let whole_digits : all is_digit (d ∷ s) ≡ true = (rw e at (to_decimal-is_digit n)) in
    rw e (
      parse_fraction d s x g whole_digits digits
      ∙ from_parts_fraction _ d s (x ∷ g) v short value h
      ∙ ap (λ w. ok (pos (w * 1000 + v))) whole)

fraction_lem : (n : ℕ) → n < 1000 → fraction_good n ≡ true
fraction_lem n h = holds_under_each fraction_good 1000 fraction_table n h

-- The digits printed for a fraction that is not zero.
fraction_facts :
    (n : ℕ)
    → n < 1000
    → (n == 0) ≡ false
    → (all is_digit (fraction_digits n) ≡ true)
      × (1 ≤ length (fraction_digits n))
      × (length (fraction_digits n) ≤ 3)
      × (read 10 (pad_end 3 b'0' (fraction_digits n)) ≡ n)
fraction_facts n h e = let good = fraction_lem n h in unfold fraction_good in ground (arith, good)

-- For every rate above zero, the text that `toMbps` prints is read back as the same rate.
pub parse_rate_mbps-to_mbps :
    (r : TrafficRate)
    → 0 < r.milli_megabits_per_second
    → parse_rate_mbps (text (to_mbps r)) ≡ ok (pos r.milli_megabits_per_second)
unfolding to_mbps
parse_rate_mbps-to_mbps r h = elim (Bool-cases (r.milli_megabits_per_second % 1000 == 0)) [
  | inl whole ↦ rw whole (
      parse_numeral (r.milli_megabits_per_second / 1000) (ground arith)
      ∙ ap (λ v. ok (pos v)) (ground arith))
  | inr fraction ↦
      let (digits, some_digit, short, value) =
        fraction_facts (r.milli_megabits_per_second % 1000) (omega arith) fraction in
      rw fraction (
        parse_numeral_fraction (r.milli_megabits_per_second / 1000) _ _ digits some_digit short
          value (ground arith)
        ∙ ap (λ v. ok (pos v)) (omega arith))
]
