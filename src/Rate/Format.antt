-- ===== src/Rate/Format.antt =====
-- The two shapes of a decimal numeral, under the format's test and under `split`.
use ayad_network_manager.Base.{
  ℕ, ◌≡◌, refl, true, false, [], ◌∷◌, ◌++◌, arith, Text, ◌==◌, nat_eq, all, all→All, All-map,
  All-append,
}
use ayad_network_manager.Text.{is_digit, is_space, trim, split}
use ayad_network_manager.Text.Split.{split_of_Avoids, split-append}
use ayad_network_manager.Text.Trim.{Avoids, trim_of_Avoids}
use ayad_network_manager.Rate.{digits_end, decimal_end, is_decimal}

is_digit-not-is_space : (c : ℕ) → is_digit c ≡ true → is_space c ≡ false
unfolding is_digit is_space
is_digit-not-is_space c h = ground arith

is_digit-not-dot : (c : ℕ) → is_digit c ≡ true → (c == b'.') ≡ false
unfolding is_digit
is_digit-not-dot c h = ground arith

digits-Avoids_space : (s : Text) → all is_digit s ≡ true → Avoids is_space s
digits-Avoids_space s h = All-map s is_digit-not-is_space (all→All is_digit s h)

pub trim_whole : (w : Text) → all is_digit w ≡ true → trim w ≡ w
trim_whole w h = trim_of_Avoids w (digits-Avoids_space w h)

pub trim_fraction :
    (w f : Text)
    → all is_digit w ≡ true
    → all is_digit f ≡ true
    → trim (w ++ b'.' ∷ f) ≡ w ++ b'.' ∷ f
trim_fraction w f h k =
    let dot : is_space b'.' ≡ false = (unfold is_space in refl) in
    trim_of_Avoids _
      (All-append _ w (b'.' ∷ f) (digits-Avoids_space w h) (dot, digits-Avoids_space f k))

digits_end_of_digits : (s : Text) → all is_digit s ≡ true → digits_end true s ≡ true
unfolding digits_end
digits_end_of_digits [] h = refl
digits_end_of_digits (c ∷ s) h = ground (arith, digits_end_of_digits s)

decimal_end-whole : (w : Text) → all is_digit w ≡ true → decimal_end true w ≡ true
unfolding decimal_end
decimal_end-whole [] h = refl
decimal_end-whole (c ∷ w) h = ground (arith, decimal_end-whole w)

decimal_end-fraction :
    (w : Text) (d : ℕ) (f : Text)
    → all is_digit w ≡ true
    → all is_digit (d ∷ f) ≡ true
    → decimal_end true (w ++ b'.' ∷ d ∷ f) ≡ true
unfolding decimal_end digits_end
decimal_end-fraction [] d f h k =
    let dot : is_digit b'.' ≡ false = (unfold is_digit in refl) in
    ground (arith, digits_end_of_digits f, dot)
decimal_end-fraction (c ∷ w) d f h k = ground (arith, decimal_end-fraction w d f)

pub is_decimal_whole : (c : ℕ) (w : Text) → all is_digit (c ∷ w) ≡ true → is_decimal (c ∷ w) ≡ true
unfolding is_decimal decimal_end
is_decimal_whole c w h = unfold is_digit in ground (arith, decimal_end-whole w)

pub is_decimal_fraction :
    (c : ℕ) (w : Text) (d : ℕ) (f : Text)
    → all is_digit (c ∷ w) ≡ true
    → all is_digit (d ∷ f) ≡ true
    → is_decimal ((c ∷ w) ++ b'.' ∷ d ∷ f) ≡ true
unfolding is_decimal decimal_end
is_decimal_fraction c w d f h k = ground (arith, decimal_end-fraction w d f)

digits-Avoids_dot : (s : Text) → all is_digit s ≡ true → Avoids (λ c. c == b'.') s
digits-Avoids_dot s h = All-map s is_digit-not-dot (all→All is_digit s h)

pub split_whole : (w : Text) → all is_digit w ≡ true → split b'.' w ≡ w ∷ []
split_whole w h = split_of_Avoids b'.' w (digits-Avoids_dot w h)

pub split_fraction :
    (w f : Text)
    → all is_digit w ≡ true
    → all is_digit f ≡ true
    → split b'.' (w ++ b'.' ∷ f) ≡ w ∷ f ∷ []
split_fraction w f h k = split-append b'.' w f (digits-Avoids_dot w h) (digits-Avoids_dot f k)
