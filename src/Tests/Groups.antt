-- ===== src/Tests/Groups.antt =====
-- The search for control groups in concrete trees.
use cgroup_monitor.Prelude.{ℕ, ◌≡◌, refl, true, some, [], ◌∷◌, Text, codes, text_eq, arith}
use cgroup_monitor.Utils.Tokenizer.{find, is_prefix}
use cgroup_monitor.Utils.Decimal.{digits_before, decimal}
use cgroup_monitor.Libvirt.Paths.{needs_slash, join}
use cgroup_monitor.Libvirt.Cgroup.Tree.{
  Node, file, directory, no_entries, named, contains, recursive_search, Files, slice, enable,
}
use cgroup_monitor.Libvirt.Cgroup.Search.{
  directories, First, recursive_search-First, IsFirst, enable-Shows,
}

abbrev group_of : Text → Node
group_of name =
    directory
      (named name (directory (named (codes "vcpu0") (directory no_entries) no_entries)) no_entries)

abbrev two_groups : Node
two_groups = directory (
    named (codes "notify") file (
      named (codes "qemu-1-vab.scope") (directory no_entries)
        (named (codes "qemu-2-va.scope") (directory no_entries) no_entries)))

recursive_search-First_example :
    First
      (codes "va")
      (directories (codes "/slice") two_groups)
      (recursive_search (codes "va") (codes "/slice") two_groups)
recursive_search-First_example =
    recursive_search-First (codes "va") (codes "/slice") two_groups (omega arith)

-- The machine `a` is given the group of the machine `ab`.
other_group :
    recursive_search (codes "va") (codes "/slice") two_groups ≡ codes "/slice/qemu-1-vab.scope"
unfolding recursive_search contains find is_prefix join needs_slash text_eq
other_group = refl

abbrev threads : Text → ℕ
threads path = 77

enable-Shows_example :
    (group : Text) × (fs : Files) × IsFirst (codes "va") (directories (slice true) two_groups) group
    × (enable threads true (codes "a") 1 (file ∷ two_groups ∷ []) ≡ some fs)
    × (fs.limit ≡ join (join group (codes "vcpu1")) (codes "cpu.max"))
unfolding decimal digits_before contains find is_prefix join needs_slash
enable-Shows_example =
    enable-Shows threads true (codes "a") 1 (file ∷ []) two_groups [] (tt, tt)
      (
        slice true ∷ [],
        codes "/sys/fs/cgroup/machine.slice/qemu-1-vab.scope",
        codes "/sys/fs/cgroup/machine.slice/qemu-2-va.scope" ∷ [],
        refl,
        refl,
      )
