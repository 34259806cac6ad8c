-- ===== src/Text/Trim.antt =====
-- What `trim` and the case of letters leave alone.
use ayad_network_manager.Base.{ℕ, ◌≡◌, refl, Bool, true, false, [], ◌∷◌, arith, Text, All, nat_eq}
use ayad_network_manager.Text.{is_space, trim_start, strip_end, trim, lower_code, to_lower, is_hex}

-- No code unit of the text belongs to the class.
abbrev pub Avoids : (ℕ → Bool) → Text → Type 0
Avoids p s = All (λ c. p c ≡ false) s

pub strip_end_of_Avoids : (p : ℕ → Bool) (s : Text) → Avoids p s → strip_end p s ≡ s
unfolding strip_end
strip_end_of_Avoids p [] h = refl
strip_end_of_Avoids p (c ∷ []) (h, k) = rw h
strip_end_of_Avoids p (c ∷ d ∷ s) (h, k) = rw (strip_end_of_Avoids p (d ∷ s) k)

trim_start_of_Avoids : (s : Text) → Avoids is_space s → trim_start s ≡ s
unfolding trim_start
trim_start_of_Avoids [] h = refl
trim_start_of_Avoids (c ∷ s) (h, k) = rw h

pub trim_of_Avoids : (s : Text) → Avoids is_space s → trim s ≡ s
unfolding trim
trim_of_Avoids s h = rw (trim_start_of_Avoids s h) (strip_end_of_Avoids is_space s h)

pub lower_code_idem : (c : ℕ) → lower_code (lower_code c) ≡ lower_code c
unfolding lower_code
lower_code_idem c = ground arith

pub to_lower_idem : (s : Text) → to_lower (to_lower s) ≡ to_lower s
unfolding to_lower
to_lower_idem [] = refl
to_lower_idem (c ∷ s) = cc (lower_code_idem c, to_lower_idem s)

pub is_hex-not-is_space : (c : ℕ) → is_hex c ≡ true → is_space c ≡ false
unfolding is_hex is_space
is_hex-not-is_space c h = ground arith
