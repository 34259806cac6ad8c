-- ===== src/Text/Numerals.antt =====
-- Numerals: `toString(radix)`, and the value of a digit string.
use ayad_network_manager.Base.{
  ℕ, zero, suc, ◌+◌, ◌-◌, ◌*◌, ◌/◌, ◌%◌, ◌<◌, ◌≡◌, refl, ◌∙◌, ap, true, [], ◌∷◌, arith, Text, ltb,
  leb, if◌then◌else◌, Bool-cases, inl, inr, all,
}
use ayad_network_manager.Text.{is_digit}

unfoldable pub digit_code : ℕ → ℕ
digit_code d = if ltb d 10 then 48 + d else 87 + d

unfoldable pub digit_value : ℕ → ℕ
digit_value c = if leb c b'9' then c - 48 else if leb c b'F' then c - 55 else c - 87

digits_from : ℕ → ℕ → ℕ → Text → Text
digits_from zero b n acc = acc
digits_from (suc f) b n acc =
    let rest = digits_from f b (n / b) (digit_code (n % b) ∷ acc) in
    if ltb n b then digit_code n ∷ acc else rest

-- `n.toString(b)`; a number has at most as many digits as its value and one more.
unfoldable pub to_radix : ℕ → ℕ → Text
unfolding digits_from digit_code
to_radix b n = digits_from (suc n) b n []

abbrev pub to_decimal : ℕ → Text
to_decimal n = to_radix 10 n

unfoldable pub read_from : ℕ → ℕ → Text → ℕ
read_from b acc [] = acc
read_from b acc (c ∷ s) = read_from b (acc * b + digit_value c) s

-- The value of a string of digits, `BigInt(s)` or `parseInt(s, b)`; the empty text has the value 0.
unfoldable pub read : ℕ → Text → ℕ
unfolding read_from digit_value
read b s = read_from b 0 s

digit_value-digit_code : (d : ℕ) → d < 16 → digit_value (digit_code d) ≡ d
unfolding digit_value digit_code
digit_value-digit_code d h = ground arith

read_from-digits_ten :
    (f n : ℕ) (acc : Text) → n < f → read_from 10 0 (digits_from f 10 n acc) ≡ read_from 10 n acc
unfolding digits_from read_from
read_from-digits_ten zero n acc h = elim h [ ]
read_from-digits_ten (suc f) n acc h = elim (Bool-cases (ltb n 10)) [
  | inl small ↦
      rw small
        (ap (λ v. read_from 10 v acc) (omega (arith, digit_value-digit_code n (ground arith))))
  | inr large ↦ rw large (
      read_from-digits_ten f (n / 10) (digit_code (n % 10) ∷ acc) (ground arith)
      ∙ ap (λ v. read_from 10 v acc) (omega (arith, digit_value-digit_code (n % 10) (omega arith))))
]

read_from-digits_sixteen :
    (f n : ℕ) (acc : Text) → n < f → read_from 16 0 (digits_from f 16 n acc) ≡ read_from 16 n acc
unfolding digits_from read_from
read_from-digits_sixteen zero n acc h = elim h [ ]
read_from-digits_sixteen (suc f) n acc h = elim (Bool-cases (ltb n 16)) [
  | inl small ↦
      rw small
        (ap (λ v. read_from 16 v acc) (omega (arith, digit_value-digit_code n (ground arith))))
  | inr large ↦ rw large (
      read_from-digits_sixteen f (n / 16) (digit_code (n % 16) ∷ acc) (ground arith)
      ∙ ap (λ v. read_from 16 v acc) (omega (arith, digit_value-digit_code (n % 16) (omega arith))))
]

-- The decimal numeral of a number is read as that number.
pub read-to_decimal : (n : ℕ) → read 10 (to_decimal n) ≡ n
unfolding read to_radix
read-to_decimal n = read_from-digits_ten (suc n) n [] (omega arith)

pub read-to_hex : (n : ℕ) → read 16 (to_radix 16 n) ≡ n
unfolding read to_radix
read-to_hex n = read_from-digits_sixteen (suc n) n [] (omega arith)

digits_ten-is_digit :
    (f n : ℕ) (acc : Text) → all is_digit acc ≡ true → all is_digit (digits_from f 10 n acc) ≡ true
unfolding digits_from digit_code is_digit
digits_ten-is_digit zero n acc h = h
digits_ten-is_digit (suc f) n acc h =
    ground (arith, digits_ten-is_digit f (n / 10) (digit_code (n % 10) ∷ acc))

pub to_decimal-is_digit : (n : ℕ) → all is_digit (to_decimal n) ≡ true
unfolding to_radix
to_decimal-is_digit n = digits_ten-is_digit (suc n) n [] refl

digits_of_cons :
    (f b n c : ℕ) (acc : Text) → (d : ℕ) × (s : Text) × (digits_from f b n (c ∷ acc) ≡ d ∷ s)
unfolding digits_from
digits_of_cons zero b n c acc = (c, acc, refl)
digits_of_cons (suc f) b n c acc = elim (Bool-cases (ltb n b)) [
  | inl small ↦ (digit_code n, c ∷ acc, rw small)
  | inr large ↦ rw large (digits_of_cons f b (n / b) (digit_code (n % b)) (c ∷ acc))
]

-- A numeral has a first digit.
pub to_radix-cons : (b n : ℕ) → (d : ℕ) × (s : Text) × (to_radix b n ≡ d ∷ s)
unfolding to_radix digits_from
to_radix-cons b n = elim (Bool-cases (ltb n b)) [
  | inl small ↦ (digit_code n, [], rw small)
  | inr large ↦ rw large (digits_of_cons n b (n / b) (digit_code (n % b)) [])
]
