-- ===== src/Domain/TcClassId.antt =====
-- backend/src/domain/value-objects/TcClassId.ts, and `normalizeClassId` of
-- backend/src/infrastructure/enforcement/TcStateReader.ts, which is the same function.
pub mod Reserved
use ayad_network_manager.Base.{
  ℕ, ◌&&◌, [], ◌∷◌, ◌++◌, Text, codes, ◌==◌, nat_eq, text_eq, if◌then◌else◌,
}
use ayad_network_manager.Text.{trim, to_lower, is_hex, take_while, take}
use ayad_network_manager.Text.Numerals.{read, to_radix}

pub data Direction : Type 0 where
  download upload : Direction

abbrev pub direction_text : Direction → Text
direction_text download = codes "download"
direction_text upload = codes "upload"

-- `replace(/^0+(?=[0-9a-f])/i, "")`
unfoldable pub strip_zeros : Text → Text
strip_zeros [] = []
strip_zeros (a ∷ []) = a ∷ []
strip_zeros (a ∷ b ∷ s) = if a == b'0' && is_hex b then strip_zeros (b ∷ s) else a ∷ b ∷ s

unfoldable pub normalize : Text → Text
normalize class_id =
    let normalized = strip_zeros (to_lower (trim class_id)) in
    if normalized == [] then codes "0" else normalized

-- `Number.parseInt(s, 16) || 2`: no digit and the value 0 both give 2.
pub parse_int_or_two : Text → ℕ
parse_int_or_two s = let value = read 16 (take_while is_hex s) in if value == 0 then 2 else value

-- `sha256` is the hexadecimal digest of node:crypto.
unfoldable pub from_mac : (Text → Text) → Text → Direction → Text
unfolding parse_int_or_two
from_mac sha256 mac direction =
    let hash = sha256 (direction_text direction ++ (codes ":" ++ to_lower (trim mac))) in
    let value = parse_int_or_two (take 4 hash) in to_radix 16 (if value == 1 then 2 else value)
