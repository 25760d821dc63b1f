-- ===== src/Utils/Dump.antt =====
-- The writers of values: what `dump` of src/monitor/utils/json.cc, `dump` of src/monitor/utils/toml.cc
-- and `print` of src/monitor/utils/config.cc share.
pub mod Json
pub mod Toml
pub mod Print
pub mod Balance
use cgroup_monitor.Prelude.{
  ℕ, suc, Bool, true, false, List, [], ◌∷◌, ◌++◌, Text, codes, if◌then◌else◌,
}
use cgroup_monitor.Prelude.Words.{ℤ, pos, negsuc}
use cgroup_monitor.Utils.Decimal.{decimal}

unfoldable pub show_int : ℤ → Text
unfolding decimal
show_int (pos n) = decimal n
show_int (negsuc n) = codes "-" ++ decimal (suc n)

abbrev pub quoted : Text → Text
quoted s = codes "\"" ++ (s ++ codes "\"")

-- What stands between two entries, in front of all but the first.
abbrev pub comma : Bool → Text
comma true = []
comma false = codes ", "
