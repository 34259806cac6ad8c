-- ===== src/Rate/Accepted.antt =====
-- Which texts `parseRateMbps` accepts, and what an accepted and validated rate becomes in tc.
use Prim.Native.Nat.{ℕ}
use mathlib.Core.Logic.{◌↔◌}
use ayad_network_manager.Base.{
  ◌+◌, ◌*◌, ◌≤◌, ◌<◌, ◌≡◌, refl, ◌∙◌, ap, sym, text_beq_iff, Bool, true, false, ◌&&◌, [], ◌∷◌, ◌++◌,
  arith, Text, ◌==◌, nat_eq, all, length, Bool-cases, inl, inr, ◌⊎◌, ◌≢◌, Option, some, none,
}
use ayad_network_manager.Base.Int.{ℤ, pos, negsuc}
use ayad_network_manager.Base.Effects.{ok}
use ayad_network_manager.Text.{is_digit, trim, pad_end}
use ayad_network_manager.Text.Numerals.{read}
use ayad_network_manager.Rate.{
  text, from_parts, parse_rate_mbps, is_decimal, decimal_end, digits_end, TrafficRate, validate,
  from_mbps, to_bits_per_second,
}
use ayad_network_manager.Rate.Format.{
  split_whole, split_fraction, is_decimal_whole, is_decimal_fraction,
}

abbrev IsNumeral : Text → Type 0
IsNumeral s = (s ≢ []) × (all is_digit s ≡ true)

-- The decimal numerals: digits, or digits on both sides of a dot.
abbrev pub Denotes : Text → ℕ → Type 0
Denotes s n =
    (IsNumeral s × (n ≡ read 10 s * 1000))
    ⊎ ((w : Text) × (f : Text) × (s ≡ w ++ b'.' ∷ f)
        × IsNumeral w
        × IsNumeral f
        × (length f ≤ 3)
        × (n ≡ read 10 w * 1000 + read 10 (pad_end 3 b'0' f)))

digits_end_inv : (seen : Bool) (s : Text) → digits_end seen s ≡ true → all is_digit s ≡ true
unfolding digits_end
digits_end_inv seen [] h = refl
digits_end_inv seen (c ∷ s) h = ground (arith, digits_end_inv true s)

digits_end_nonempty : (s : Text) → digits_end false s ≡ true → s ≢ []
unfolding digits_end
digits_end_nonempty [] h = cc
digits_end_nonempty (c ∷ s) h = cc

-- Behind the first digit: only digits, or digits, a dot and a numeral.
decimal_end_inv :
    (s : Text)
    → decimal_end true s ≡ true
    → (all is_digit s ≡ true)
      ⊎ ((w : Text) × (f : Text) × (s ≡ w ++ b'.' ∷ f) × (all is_digit w ≡ true) × IsNumeral f)
unfolding decimal_end
decimal_end_inv [] h = inl refl
decimal_end_inv (c ∷ s) h = elim (Bool-cases (is_digit c)) [
  | inl digit ↦ elim (decimal_end_inv s (rw digit at h)) [
    | inl digits ↦ inl (rw digit digits)
    | inr (w, f, e, k, n) ↦ inr (c ∷ w, f, ap (λ (t : Text). c ∷ t) e, rw digit k, n)
  ]
  | inr other ↦
      let rest : (c == b'.' && true && digits_end false s) ≡ true = (rw other at h) in
      let dot : c ≡ b'.' = ground arith in
      let numeral : digits_end false s ≡ true = ground arith in
      inr (
        [],
        s,
        ap (λ (d : ℕ). d ∷ s) dot,
        refl,
        (digits_end_nonempty s numeral, digits_end_inv false s numeral),
      )
]

is_decimal_inv :
    (s : Text)
    → is_decimal s ≡ true
    → IsNumeral s ⊎ ((w : Text) × (f : Text) × (s ≡ w ++ b'.' ∷ f) × IsNumeral w × IsNumeral f)
unfolding is_decimal decimal_end
is_decimal_inv [] h = cc
is_decimal_inv (c ∷ s) h =
    let digit : is_digit c ≡ true = ground arith in
    elim (decimal_end_inv s (rw digit at h)) [
      | inl digits ↦ inl (cc, rw digit digits)
      | inr (w, f, e, k, n) ↦ inr (c ∷ w, f, ap (λ (t : Text). c ∷ t) e, (cc, rw digit k), n)
    ]

from_parts_inv :
    (given w f : Text) (r : ℤ)
    → from_parts given w f ≡ ok r
    → (length f ≤ 3)
      × (0 < read 10 w * 1000 + read 10 (pad_end 3 b'0' f))
      × (r ≡ pos (read 10 w * 1000 + read 10 (pad_end 3 b'0' f)))
unfolding from_parts
from_parts_inv given w f r h = ground arith

from_parts_ok :
    (given w f : Text)
    → w ≢ []
    → length f ≤ 3
    → 0 < read 10 w * 1000 + read 10 (pad_end 3 b'0' f)
    → from_parts given w f ≡ ok (pos (read 10 w * 1000 + read 10 (pad_end 3 b'0' f)))
unfolding from_parts
from_parts_ok given w f some_digit short positive = ground (arith, text_beq_iff w [])

parse_shape_whole :
    (t s : Text) → trim t ≡ s → IsNumeral s → parse_rate_mbps (text t) ≡ from_parts t s []
unfolding parse_rate_mbps
parse_shape_whole t [] e (nonempty, digits) = absurd (nonempty refl)
parse_shape_whole t (c ∷ s) e (nonempty, digits) =
    rw (e, is_decimal_whole c s digits, split_whole (c ∷ s) digits)

parse_shape_fraction :
    (t w f : Text)
    → trim t ≡ w ++ b'.' ∷ f
    → IsNumeral w
    → IsNumeral f
    → parse_rate_mbps (text t) ≡ from_parts t w f
unfolding parse_rate_mbps
parse_shape_fraction t [] f e (nonempty, digits) k = absurd (nonempty refl)
parse_shape_fraction t (c ∷ w) [] e h (nonempty, digits) = absurd (nonempty refl)
parse_shape_fraction t (c ∷ w) (d ∷ f) e (_, h) (_, k) =
    rw (e, is_decimal_fraction c w d f h k, split_fraction (c ∷ w) (d ∷ f) h k)

parse_is_decimal : (t : Text) (r : ℤ) → parse_rate_mbps (text t) ≡ ok r → is_decimal (trim t) ≡ true
unfolding parse_rate_mbps
parse_is_decimal t r h = ground arith

parse_sound :
    (t : Text) (r : ℤ)
    → parse_rate_mbps (text t) ≡ ok r
    → (n : ℕ) × (r ≡ pos n) × (0 < n) × Denotes (trim t) n
parse_sound t r h = elim (is_decimal_inv (trim t) (parse_is_decimal t r h)) [
  | inl numeral ↦
      let (short, positive, e) =
        from_parts_inv t (trim t) [] r (rw (parse_shape_whole t (trim t) refl numeral) at h) in
      let zeros : read 10 (pad_end 3 b'0' []) ≡ 0 = (unfold read pad_end in refl) in
      (_, e, positive, inl (numeral, omega (arith, zeros)))
  | inr (w, f, e, hw, hf) ↦
      let (short, positive, same) =
        from_parts_inv t w f r (rw (parse_shape_fraction t w f e hw hf) at h) in
      (_, same, positive, inr (w, f, e, hw, hf, short, refl))
]

parse_complete :
    (t : Text) (n : ℕ) → 0 < n → Denotes (trim t) n → parse_rate_mbps (text t) ≡ ok (pos n)
parse_complete t n positive (inl (numeral, e)) =
    let zeros : read 10 (pad_end 3 b'0' []) ≡ 0 = (unfold read pad_end in refl) in
    parse_shape_whole t (trim t) refl numeral
    ∙ from_parts_ok t (trim t) [] numeral.0 (omega arith) (omega (arith, zeros))
    ∙ ap (λ v. ok (pos v)) (omega (arith, zeros))
parse_complete t n positive (inr (w, f, e, hw, hf, short, same)) =
    parse_shape_fraction t w f e hw hf
    ∙ from_parts_ok t w f hw.0 short (omega arith)
    ∙ ap (λ v. ok (pos v)) (sym same)

-- A text is accepted with the value n exactly when n is above zero and the trimmed text is a
-- decimal numeral, with at most three digits behind the dot, of n thousandths.
pub parse_rate_mbps_iff :
    (t : Text) (n : ℕ) → (parse_rate_mbps (text t) ≡ ok (pos n)) ↔ ((0 < n) × Denotes (trim t) n)
parse_rate_mbps_iff t n = (
  λ h.
      let (m, e, positive, d) = parse_sound t (pos n) h in
      let same : m ≡ n = cc in
      let facts : (0 < m) × Denotes (trim t) m = (positive, d) in rw same at facts,
  λ h. parse_complete t n h.0 h.1,
)

-- A rate that the validator lets through makes a `TrafficRate` of as many thousandths of a megabit
-- in a second, which tc is given as a number of bits above zero and within the uplink.
validate-to_bits_per_second :
    (uplink : ℕ) (mac : Text) (ip : Option Text) (rate : ℤ)
    → validate (pos uplink) mac ip rate ≡ ok tt
    → (r : TrafficRate) × (from_mbps rate ≡ ok r)
      × (rate ≡ pos r.milli_megabits_per_second)
      × (0 < to_bits_per_second r)
      × (to_bits_per_second r ≤ uplink * 1000000)
unfolding validate from_mbps to_bits_per_second
validate-to_bits_per_second uplink mac none rate h = cc
validate-to_bits_per_second uplink mac (some ip) (pos n) h =
    (record { milli_megabits_per_second = n }, ground arith, refl, ground arith, ground arith)
validate-to_bits_per_second uplink mac (some ip) (negsuc n) h = ground arith
