-- ===== src/Utils/Dump/Print.antt =====
-- `print` of src/monitor/utils/config.cc. How a stream writes a `float` is the library's.
use cgroup_monitor.Prelude.{Bool, true, false, [], ◌++◌, Text, codes}
use cgroup_monitor.Floats.{Floats}
use cgroup_monitor.Utils.Config.{
  Value, long, float, str, bool, arr, dic, Array, items_end, item, Dict, entries_end, entry,
}
use cgroup_monitor.Utils.Dump.{show_int, comma}

abbrev pub show_bool : Bool → Text
show_bool true = codes "1"
show_bool false = codes "0"

module _ {F : Floats} (show_float : F.Float → Text) where
  unfoldable mutual
    unfolding show_int

    pub print_value : Value F → Text
    print_value (long n) = codes "long(" ++ (show_int n ++ codes ")")
    print_value (float x) = codes "float(" ++ (show_float x ++ codes ")")
    print_value (str s) = codes "str(" ++ (s ++ codes ")")
    print_value (bool b) = codes "bool(" ++ (show_bool b ++ codes ")")
    print_value (arr a) = codes "[" ++ (print_items true a ++ codes "]")
    print_value (dic d) = codes "{" ++ (print_entries true d ++ codes "}")

    pub print_items : Bool → Array F → Text
    print_items first items_end = []
    print_items first (item v a) = comma first ++ (print_value v ++ print_items false a)

    pub print_entries : Bool → Dict F → Text
    print_entries first entries_end = []
    print_entries first (entry k v d) =
        comma first ++ (k ++ (codes "=> " ++ (print_value v ++ print_entries false d)))
