-- ===== src/Domain/MacAddress.antt =====
-- backend/src/domain/value-objects/MacAddress.ts
use ayad_network_manager.Base.{
  ℕ, zero, suc, ◌≡◌, refl, Bool, true, false, ◌&&◌, [], ◌∷◌, arith, Text, ◌==◌, nat_eq,
  if◌then◌else◌,
}
use ayad_network_manager.Base.Effects.{Result, ok, err}
use ayad_network_manager.Text.{is_space, trim, to_lower, is_hex}
use ayad_network_manager.Text.Trim.{Avoids, trim_of_Avoids, to_lower_idem, is_hex-not-is_space}
use ayad_network_manager.Errors.{Error, invalid_mac}

-- The constructor is private: `create` makes every value.
pub record MacAddress : Type 0 where
  pub value : Text

-- `([0-9a-f]{2}:){n}[0-9a-f]{2}` from start to end, letters in either case
pairs : ℕ → Text → Bool
pairs zero (a ∷ b ∷ []) = is_hex a && is_hex b
pairs (suc n) (a ∷ b ∷ c ∷ s) = is_hex a && is_hex b && c == b':' && pairs n s
pairs _ _ = false

-- `MAC_REGEX.test`
unfoldable pub is_mac : Text → Bool
unfolding pairs
is_mac s = pairs 5 s

unfoldable pub normalize_mac : Text → Text
normalize_mac s = to_lower (trim s)

unfoldable pub create : Text → Result Error MacAddress
create s =
    let normalized = normalize_mac s in
    if is_mac normalized then ok (record { value = normalized }) else err (invalid_mac s)

pairs-Avoids : (n : ℕ) (s : Text) → pairs n s ≡ true → Avoids is_space s
unfolding pairs
pairs-Avoids zero (a ∷ b ∷ []) h = ground (arith, is_hex-not-is_space a, is_hex-not-is_space b)
pairs-Avoids (suc n) (a ∷ b ∷ c ∷ s) h =
    let colon : is_space b':' ≡ false = (unfold is_space in refl) in
    ground (arith, is_hex-not-is_space a, is_hex-not-is_space b, pairs-Avoids n s, colon)
pairs-Avoids _ _ h = cc

pub is_mac-Avoids : (s : Text) → is_mac s ≡ true → Avoids is_space s
unfolding is_mac
is_mac-Avoids s h = pairs-Avoids 5 s h

-- The value of an address is its own normal form.
pub create-is_mac :
    (s : Text) {m : MacAddress}
    → create s ≡ ok m
    → (m.value ≡ normalize_mac s) × (is_mac m.value ≡ true)
unfolding create
create-is_mac s h = ground arith

pub normalize_mac_of_is_mac :
    (s : Text) → is_mac (normalize_mac s) ≡ true → normalize_mac (normalize_mac s) ≡ normalize_mac s
unfolding normalize_mac
normalize_mac_of_is_mac s h = cc (
  trim_of_Avoids (to_lower (trim s)) (is_mac-Avoids (to_lower (trim s)) h),
  to_lower_idem (trim s),
)

-- An address made from any text is made again, unchanged, from its own text.
create-value : (s : Text) (m : MacAddress) → create s ≡ ok m → create m.value ≡ ok m
create-value s m h =
    let (same, good) = create-is_mac s h in
    let good' : is_mac (normalize_mac s) ≡ true = rw same at good in
    let again = normalize_mac_of_is_mac s good' in unfold create in ground (arith, same, again)
