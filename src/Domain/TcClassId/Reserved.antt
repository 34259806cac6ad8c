-- ===== src/Domain/TcClassId/Reserved.antt =====
-- The class ids of devices avoid the reserved ones.
use ayad_network_manager.Base.{◌≤◌, Text, arith, ◌++◌, codes, if◌then◌else◌, ◌==◌, nat_eq}
use ayad_network_manager.Text.{trim, to_lower, take}
use ayad_network_manager.Text.Numerals.{read, read-to_hex}
use ayad_network_manager.Domain.TcClassId.{Direction, direction_text, parse_int_or_two, from_mac}

at_least_two : (s : Text) → 2 ≤ (let v = parse_int_or_two s in if v == 1 then 2 else v)
unfolding parse_int_or_two
at_least_two s = ground arith

-- Whatever the digest is, the class id of a device is a hexadecimal number of at least 2: it is never
-- that of the root, 0, nor of the root class, 1.
pub from_mac-reserved :
    (sha256 : Text → Text) (mac : Text) (direction : Direction)
    → 2 ≤ read 16 (from_mac sha256 mac direction)
unfolding from_mac
from_mac-reserved sha256 mac direction =
    let hash = sha256 (direction_text direction ++ (codes ":" ++ to_lower (trim mac))) in
    let v = parse_int_or_two (take 4 hash) in
    rw (read-to_hex (if v == 1 then 2 else v)) (at_least_two (take 4 hash))
