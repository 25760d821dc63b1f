-- ===== src/Tests/Dumps.antt =====
-- Values written at concrete inputs.
use cgroup_monitor.Utils.Dump.Balance.{nesting, IsClear, nesting-dump_value}
use cgroup_monitor.Prelude.{[], some, ◌≡◌, refl, Text, codes}
use cgroup_monitor.Prelude.Words.{pos, negsuc}
use cgroup_monitor.Floats.{fixed, Fixed}
use cgroup_monitor.Utils.Config.{
  long, str, arr, dic, items_end, item, Dict, entries_end, entry, to_int,
}
use cgroup_monitor.Utils.Dump.{show_int}
use cgroup_monitor.Utils.Dump.Json
use cgroup_monitor.Utils.Dump.Toml
use cgroup_monitor.Utils.Dump.Print

abbrev written : Fixed → Text
written x = codes "x"

-- vm.name is "a", vm.tags an array with a number and a dict in it.
abbrev vm_config : Dict fixed
vm_config = entry (codes "name") (str (codes "a")) (
    entry (codes "tags")
      (arr (
        item (long (negsuc 6))
          (item (dic (entry (codes "k") (long (pos 1)) entries_end)) items_end)))
      entries_end)

as_json :
    Json.dump_value written (dic vm_config)
    ≡ codes "{\"name\" : \"a\", \"tags\" : [-7, {\"k\" : 1}]}"
unfolding Json.dump_value show_int to_int
as_json = refl

-- The dict in the array has no braces.
as_toml :
    Toml.dump written (entry (codes "vm") (dic vm_config) entries_end)
    ≡ codes "\n[vm]\nname = \"a\"\ntags = [-7, k = 1\n]\n"
unfolding Toml.dump Toml.dump_value show_int to_int
as_toml = refl

as_print :
    Print.print_value written (dic vm_config)
    ≡ codes "{name=> str(a), tags=> [long(-7), {k=> long(1)}]}"
unfolding Print.print_value show_int
as_print = refl

vm_config-IsClear : IsClear (dic vm_config)
vm_config-IsClear = (
  (refl, (refl, (refl, (refl, tt)))),
  (refl, tt),
  ((refl, (refl, (refl, (refl, tt)))), (tt, (((refl, tt), tt, tt), tt)), tt),
)

nesting-dump_value_example : nesting (Json.dump_value written (dic vm_config)) [] ≡ some []
nesting-dump_value_example =
    nesting-dump_value written (λ x. (refl, tt)) (dic vm_config) vm_config-IsClear
