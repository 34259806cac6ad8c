-- ===== src/Text.antt =====
-- The methods of JavaScript's `String` that the program calls. A text is the list of its code
-- units; letters change case within ASCII, which is all that the program's tests can tell apart.
pub mod Trim
pub mod Numerals
pub mod Split
use ayad_network_manager.Base.{
  ℕ, zero, suc, ◌+◌, ◌-◌, Bool, true, false, ◌&&◌, ◌||◌, List, [], ◌∷◌, ◌++◌, map, leb, ◌==◌,
  if◌then◌else◌, Text, length, nat_eq,
}

-- The white space and line terminators that `trim` removes.
unfoldable pub is_space : ℕ → Bool
is_space c =
    leb 9 c && leb c 13
    || c == 32
    || c == 0xa0
    || c == 0x1680
    || leb 0x2000 c && leb c 0x200a
    || c == 0x2028
    || c == 0x2029
    || c == 0x202f
    || c == 0x205f
    || c == 0x3000
    || c == 0xfeff

unfoldable pub trim_start : Text → Text
trim_start [] = []
trim_start (c ∷ s) = if is_space c then trim_start s else c ∷ s

-- Removes the code units of a class at the end of a text.
unfoldable pub strip_end : (ℕ → Bool) → Text → Text
strip_end p [] = []
strip_end p (c ∷ s) = elim (strip_end p s) [ [] ↦ if p c then [] else c ∷ [] | d ∷ r ↦ c ∷ d ∷ r ]

unfoldable pub trim : Text → Text
unfolding trim_start strip_end is_space
trim s = strip_end is_space (trim_start s)

unfoldable pub lower_code : ℕ → ℕ
lower_code c = if leb b'A' c && leb c b'Z' then c + 32 else c

unfoldable pub upper_code : ℕ → ℕ
upper_code c = if leb b'a' c && leb c b'z' then c - 32 else c

unfoldable pub to_lower : Text → Text
unfolding lower_code
to_lower s = map lower_code s

unfoldable pub to_upper : Text → Text
unfolding upper_code
to_upper s = map upper_code s

unfoldable pub is_digit : ℕ → Bool
is_digit c = leb b'0' c && leb c b'9'

-- `[0-9a-f]` under the flag `i`
unfoldable pub is_hex : ℕ → Bool
unfolding is_digit
is_hex c = is_digit c || leb b'a' c && leb c b'f' || leb b'A' c && leb c b'F'

abbrev pub replicate : ℕ → ℕ → Text
replicate zero c = []
replicate (suc n) c = c ∷ replicate n c

unfoldable pub pad_start : ℕ → ℕ → Text → Text
pad_start n c s = replicate (n - length s) c ++ s

unfoldable pub pad_end : ℕ → ℕ → Text → Text
pad_end n c s = s ++ replicate (n - length s) c

-- One part of `split`, and the parts behind it.
split_from : ℕ → Text → Text → List Text
split_from sep cur [] = cur ∷ []
split_from sep cur (c ∷ s) = elim (c == sep) [
  | true ↦ cur ∷ split_from sep [] s
  | false ↦ split_from sep (cur ++ c ∷ []) s
]

-- `s.split(sep)` at a separator of one code unit
unfoldable pub split : ℕ → Text → List Text
unfolding split_from
split sep s = split_from sep [] s

unfoldable pub take_while : (ℕ → Bool) → Text → Text
take_while p [] = []
take_while p (c ∷ s) = if p c then c ∷ take_while p s else []

-- `s.slice(0, n)`
unfoldable pub take : ℕ → Text → Text
take zero s = []
take (suc n) [] = []
take (suc n) (c ∷ s) = c ∷ take n s
