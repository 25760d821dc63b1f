-- ===== src/Utils/Dump/Toml.antt =====
-- `dump` of src/monitor/utils/toml.cc. How a stream writes a `float` is the library's.
use cgroup_monitor.Prelude.{Bool, true, false, [], ◌++◌, Text, codes}
use cgroup_monitor.Floats.{Floats}
use cgroup_monitor.Utils.Config.{
  Value, long, float, str, bool, arr, dic, Array, items_end, item, Dict, entries_end, entry, to_int,
}
use cgroup_monitor.Utils.Dump.{show_int, quoted, comma}

module _ {F : Floats} (show_float : F.Float → Text) where
  -- `get<long>` reads an `int`. A `bool` is not written. A dict in an array or in braces is dumped with
  -- `isGlobal` at its default, so as lines.
  unfoldable mutual
    unfolding show_int

    pub dump_value : Value F → Text
    dump_value (long n) = show_int (to_int n)
    dump_value (float x) = show_float x
    dump_value (str s) = quoted s
    dump_value (bool b) = []
    dump_value (arr a) = codes "[" ++ (dump_items true a ++ codes "]")
    dump_value (dic d) = dump_lines d

    pub dump_items : Bool → Array F → Text
    dump_items first items_end = []
    dump_items first (item v a) = comma first ++ (dump_value v ++ dump_items false a)

    -- `name = value`.
    pub dump_entry : Text → Value F → Text
    dump_entry k (long n) = k ++ (codes " = " ++ show_int (to_int n))
    dump_entry k (float x) = k ++ (codes " = " ++ show_float x)
    dump_entry k (str s) = k ++ (codes " = " ++ quoted s)
    dump_entry k (bool b) = []
    dump_entry k (arr a) = k ++ (codes " = [" ++ (dump_items true a ++ codes "]"))
    dump_entry k (dic d) = k ++ (codes " = " ++ dump_lines d)

    -- An entry of a dict that is dumped as lines, in which a dict has braces.
    pub dump_line : Text → Value F → Text
    dump_line k (long n) = k ++ (codes " = " ++ show_int (to_int n))
    dump_line k (float x) = k ++ (codes " = " ++ show_float x)
    dump_line k (str s) = k ++ (codes " = " ++ quoted s)
    dump_line k (bool b) = []
    dump_line k (arr a) = k ++ (codes " = [" ++ (dump_items true a ++ codes "]"))
    dump_line k (dic d) = k ++ (codes " = {" ++ (dump_inline true d ++ codes "}"))

    pub dump_inline : Bool → Dict F → Text
    dump_inline first entries_end = []
    dump_inline first (entry k v d) = comma first ++ (dump_entry k v ++ dump_inline false d)

    pub dump_lines : Dict F → Text
    dump_lines entries_end = []
    dump_lines (entry k v d) = dump_line k v ++ (codes "\n" ++ dump_lines d)

  abbrev pub dump_section : Text → Value F → Text
  dump_section k (dic d) = codes "\n[" ++ (k ++ (codes "]\n" ++ dump_lines d))
  dump_section k other = dump_line k other ++ codes "\n"

  -- `dump` with its defaults: the dicts are sections.
  unfoldable pub dump : Dict F → Text
  unfolding dump_value
  dump entries_end = []
  dump (entry k v d) = dump_section k v ++ dump d
