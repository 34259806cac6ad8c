-- ===== src/Base/Equality.antt =====
-- Boolean equality as an instance, for numbers and for texts. A text is the list of its UTF-16
-- code units; the identifiers and protocol words of the program are ASCII.
use Prim.Native.Nat.{ℕ}
use Prim.Native.Char.{code}
use Prim.Native.String.{String}
use mathlib.Core.Path.{◌≡◌, refl}
use mathlib.Core.Logic.{◌↔◌}
use mathlib.Core.Bool.{Bool, true, false, ◌&&◌}
use mathlib.Core.List.{List, [], ◌∷◌}
use native.Mathlib.Omega.{arith}
use ayad_network_manager.Base.Tests.{nat_beq, nat_beq_iff}

-- `===` on the values of one type, and that it decides their equality.
pub record Comparable {κ} (K : Type κ) : Type κ where
  pub same : K → K → Bool
  pub same_iff : (x y : K) → (same x y ≡ true) ↔ (x ≡ y)

infix 50 ◌==◌
module _ {κ} {K : Type κ} where
  abbrev pub ◌==◌ : ⦃comparable : Comparable K⦄ → K → K → Bool
  ◌==◌ ⦃comparable⦄ x y = comparable.same x y

instance abbrev pub nat_eq : Comparable ℕ
nat_eq = record { same = nat_beq; same_iff = nat_beq_iff }

abbrev pub bool_beq : Bool → Bool → Bool
bool_beq true b = b
bool_beq false true = false
bool_beq false false = true

pub bool_beq_iff : (a b : Bool) → (bool_beq a b ≡ true) ↔ (a ≡ b)
bool_beq_iff true b = ground arith
bool_beq_iff false true = ground arith
bool_beq_iff false false = ground arith

instance abbrev pub bool_eq : Comparable Bool
bool_eq = record { same = bool_beq; same_iff = bool_beq_iff }

abbrev pub Text : Type 0
Text = List ℕ

-- The code units of an ASCII literal.
abbrev pub codes : String → Text
codes String.[] = []
codes (String.◌∷◌ c s) = code c ∷ codes s

unfoldable pub text_beq : Text → Text → Bool
text_beq [] [] = true
text_beq [] (_ ∷ _) = false
text_beq (_ ∷ _) [] = false
text_beq (a ∷ s) (b ∷ t) = nat_beq a b && text_beq s t

pub text_beq_iff : (s t : Text) → (text_beq s t ≡ true) ↔ (s ≡ t)
unfolding text_beq
text_beq_iff [] [] = ground arith
text_beq_iff [] (b ∷ t) = ground arith
text_beq_iff (a ∷ s) [] = ground arith
text_beq_iff (a ∷ s) (b ∷ t) = ground (arith, text_beq_iff s t)

instance abbrev pub text_eq : Comparable Text
text_eq = record { same = text_beq; same_iff = text_beq_iff }

pub eq_refl {κ} : {K : Type κ} ⦃comparable : Comparable K⦄ (x : K) → (x == x) ≡ true
eq_refl ⦃comparable⦄ x = (comparable.same_iff x x).1 refl
