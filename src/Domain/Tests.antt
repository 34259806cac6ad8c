-- ===== src/Domain/Tests.antt =====
-- The theorems on addresses at concrete inputs.
use ayad_network_manager.Base.{◌≤◌, Text, codes, text_eq}
use ayad_network_manager.Text.Numerals.{read}
use ayad_network_manager.Domain.TcClassId.{download, from_mac}
use ayad_network_manager.Domain.TcClassId.Reserved.{from_mac-reserved}

abbrev digest_of_one : Text → Text
digest_of_one s = codes "0001f2"

from_mac-reserved_example :
    2 ≤ read 16 (from_mac digest_of_one (codes "0a:bc:00:00:00:01") download)
from_mac-reserved_example = from_mac-reserved digest_of_one (codes "0a:bc:00:00:00:01") download
