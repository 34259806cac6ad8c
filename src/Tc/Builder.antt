-- ===== src/Tc/Builder.antt =====
-- backend/src/infrastructure/enforcement/TcBuilder.ts: a constructor for each function, and the
-- arguments with which each has `tc` called.
use Prim.Native.String.{String}
use ayad_network_manager.Base.{ℕ, List, [], ◌∷◌, ◌++◌, Text, codes}
use ayad_network_manager.Text.Numerals.{to_decimal}
use ayad_network_manager.Domain.TcClassId.{Direction, download, upload}

-- `interfaceName` comes first everywhere.
pub data TcCommand : Type 0 where
  add_htb_root_qdisc replace_htb_root_qdisc delete_root_qdisc : Text → TcCommand
  add_root_class change_root_class : Text → Text → TcCommand
  add_class change_class_rate : Text → Text → Text → TcCommand
  -- `addDownloadFilterByIp` and `addUploadFilterByIp`
  add_filter_by_ip : Direction → Text → Text → Text → ℕ → TcCommand
  delete_filter : Text → ℕ → TcCommand
  delete_class : Text → Text → TcCommand

-- A side of the traffic: downloads are told by where they go, uploads by where they come from.
abbrev side : Direction → Text
side download = codes "dst"
side upload = codes "src"

abbrev minor : Text → Text
minor class_id = codes "1:" ++ class_id

abbrev at_rate : Text → List Text
at_rate rate = codes "rate" ∷ rate ∷ codes "ceil" ∷ rate ∷ []

abbrev htb_root : List Text
htb_root =
    codes "root" ∷ codes "handle" ∷ codes "1:" ∷ codes "htb" ∷ codes "default" ∷ codes "1" ∷ []

abbrev verb : String → String → Text → List Text → List Text
verb object action interface_name rest =
    codes object ∷ codes action ∷ codes "dev" ∷ interface_name ∷ rest

unfoldable pub args : TcCommand → List Text
args (add_htb_root_qdisc i) = verb "qdisc" "add" i htb_root
args (replace_htb_root_qdisc i) = verb "qdisc" "replace" i htb_root
args (delete_root_qdisc i) = verb "qdisc" "del" i (codes "root" ∷ [])
args (add_root_class i rate) =
    verb "class" "add" i
      (codes "parent" ∷ codes "1:" ∷ codes "classid" ∷ codes "1:1" ∷ codes "htb" ∷ at_rate rate)
args (change_root_class i rate) =
    verb "class" "change" i (codes "classid" ∷ codes "1:1" ∷ codes "htb" ∷ at_rate rate)
args (add_class i class_id rate) =
    verb "class" "add" i
      (codes "parent" ∷ codes "1:1" ∷ codes "classid" ∷ minor class_id ∷ codes "htb" ∷ at_rate rate)
args (change_class_rate i class_id rate) =
    verb "class" "change" i (codes "classid" ∷ minor class_id ∷ codes "htb" ∷ at_rate rate)
args (add_filter_by_ip direction i ip class_id priority) = verb "filter" "add" i (
    codes "protocol"
    ∷ codes "ip"
    ∷ codes "parent"
    ∷ codes "1:"
    ∷ codes "prio"
    ∷ to_decimal priority
    ∷ codes "u32"
    ∷ codes "match"
    ∷ codes "ip"
    ∷ side direction
    ∷ (ip ++ codes "/32")
    ∷ codes "flowid"
    ∷ minor class_id
    ∷ [])
args (delete_filter i priority) =
    verb "filter" "del" i (codes "parent" ∷ codes "1:" ∷ codes "pref" ∷ to_decimal priority ∷ [])
args (delete_class i class_id) = verb "class" "del" i (codes "classid" ∷ minor class_id ∷ [])
