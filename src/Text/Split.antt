-- ===== src/Text/Split.antt =====
-- `split` on texts whose separators are known.
use mathlib.Core.List.{append-nil, append_assoc}
use ayad_network_manager.Base.{ℕ, ◌≡◌, ◌∙◌, ap, [], ◌∷◌, ◌++◌, Text, ◌==◌, nat_eq, eq_refl}
use ayad_network_manager.Text.{split, split_from}
use ayad_network_manager.Text.Trim.{Avoids}

split_from_of_Avoids :
    (sep : ℕ) (w cur : Text) → Avoids (λ c. c == sep) w → split_from sep cur w ≡ (cur ++ w) ∷ []
unfolding split_from
split_from_of_Avoids sep [] cur h = rw append-nil
split_from_of_Avoids sep (c ∷ w) cur (h, k) =
    rw (h, split_from)
      (split_from_of_Avoids sep w (cur ++ c ∷ []) k
        ∙ ap (λ (t : Text). t ∷ []) (append_assoc cur (c ∷ []) w))

split_from-append :
    (sep : ℕ) (w cur f : Text)
    → Avoids (λ c. c == sep) w
    → split_from sep cur (w ++ sep ∷ f) ≡ (cur ++ w) ∷ split_from sep [] f
unfolding split_from
split_from-append sep [] cur f h = rw (eq_refl sep, split_from) (rw append-nil)
split_from-append sep (c ∷ w) cur f (h, k) =
    rw (h, split_from)
      (split_from-append sep w (cur ++ c ∷ []) f k
        ∙ ap (λ (t : Text). t ∷ split_from sep [] f) (append_assoc cur (c ∷ []) w))

-- A text without the separator is its own only part.
pub split_of_Avoids : (sep : ℕ) (w : Text) → Avoids (λ c. c == sep) w → split sep w ≡ w ∷ []
unfolding split
split_of_Avoids sep w h = split_from_of_Avoids sep w [] h

-- One separator makes two parts.
pub split-append :
    (sep : ℕ) (w f : Text)
    → Avoids (λ c. c == sep) w
    → Avoids (λ c. c == sep) f
    → split sep (w ++ sep ∷ f) ≡ w ∷ f ∷ []
unfolding split
split-append sep w f h k =
    split_from-append sep w [] f h ∙ ap (λ ps. w ∷ ps) (split_from_of_Avoids sep f [] k)
