-- ===== src/Utils/Dump/Json.antt =====
-- `dump` of src/monitor/utils/json.cc. How a stream writes a `float` is the library's.
use cgroup_monitor.Prelude.{Bool, true, false, [], ◌++◌, Text, codes}
use cgroup_monitor.Floats.{Floats}
use cgroup_monitor.Utils.Config.{
  Value, long, float, str, bool, arr, dic, Array, items_end, item, Dict, entries_end, entry, to_int,
}
use cgroup_monitor.Utils.Dump.{show_int, quoted, comma}

module _ {F : Floats} (show_float : F.Float → Text) where
  -- `get<long>` reads an `int`. A `bool` is not written.
  unfoldable mutual
    unfolding show_int

    pub dump_value : Value F → Text
    dump_value (long n) = show_int (to_int n)
    dump_value (float x) = show_float x
    dump_value (str s) = quoted s
    dump_value (bool b) = []
    dump_value (arr a) = codes "[" ++ (dump_items true a ++ codes "]")
    dump_value (dic d) = codes "{" ++ (dump_entries true d ++ codes "}")

    pub dump_items : Bool → Array F → Text
    dump_items first items_end = []
    dump_items first (item v a) = comma first ++ (dump_value v ++ dump_items false a)

    pub dump_entries : Bool → Dict F → Text
    dump_entries first entries_end = []
    dump_entries first (entry k v d) = comma first ++ (dump_entry k v ++ dump_entries false d)

    pub dump_entry : Text → Value F → Text
    dump_entry k (bool b) = []
    dump_entry k (long n) = quoted k ++ (codes " : " ++ show_int (to_int n))
    dump_entry k (float x) = quoted k ++ (codes " : " ++ show_float x)
    dump_entry k (str s) = quoted k ++ (codes " : " ++ quoted s)
    dump_entry k (arr a) = quoted k ++ (codes " : [" ++ (dump_items true a ++ codes "]"))
    dump_entry k (dic d) = quoted k ++ (codes " : {" ++ (dump_entries true d ++ codes "}"))
