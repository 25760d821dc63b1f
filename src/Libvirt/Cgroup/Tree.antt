-- ===== src/Libvirt/Cgroup/Tree.antt =====
-- src/monitor/libvirt/controller/cgroup.cc: how `enable` finds the files of a vCPU in the tree of the
-- control groups. A tree is what the file system shows during one search; its entries are in the order in
-- which `directory_iterator` gives them.
use cgroup_monitor.Prelude.{
  ℕ, Bool, true, false, Option, none, some, List, [], ◌∷◌, ◌++◌, Text, codes, text_eq,
  if◌then◌else◌, length, ◌==◌,
}
use cgroup_monitor.Utils.Decimal.{decimal}
use cgroup_monitor.Utils.Tokenizer.{find}
use cgroup_monitor.Libvirt.Paths.{join}

mutual
  pub data Node : Type 0 where
    file : Node
    directory : Entries → Node

  pub data Entries : Type 0 where
    no_entries : Entries
    named : Text → Node → Entries → Entries

abbrev pub is_directory : Node → Bool
is_directory file = false
is_directory (directory es) = true

abbrev pub is_found : Option ℕ → Bool
is_found none = false
is_found (some i) = true

-- `path.u8string ().find (name) != npos`.
unfoldable pub contains : Text → Text → Bool
contains name path = is_found (find name path)

unfoldable mutual
  unfolding contains join text_eq

  pub recursive_search : Text → Text → Node → Text
  recursive_search name path file = []
  recursive_search name path (directory es) =
      let inner = search_entries name path es in if contains name path then path else inner

  -- The loop over the entries of a directory.
  pub search_entries : Text → Text → Entries → Text
  search_entries name path no_entries = []
  search_entries name path (named n node es) =
      let ret = recursive_search name (join path n) node in
      let rest = search_entries name path es in
      if is_directory node then (if text_eq ret [] then rest else ret) else rest

-- The loop of `enable`: one search in each tree, until there is a group. `none` says that it still waits.
unfoldable pub wait_group : Text → Text → List Node → Option Text
unfolding recursive_search
wait_group name root [] = none
wait_group name root (tree ∷ trees) =
    let rest = wait_group name root trees in
    let path = recursive_search name root tree in if length path == 0 then rest else some path

-- The files of a vCPU.
pub record Files : Type 0 where
  pub proc_id : ℕ
  pub usage : Text
  pub limit : Text
  pub proc_path : Text

abbrev pub slice : Bool → Text
slice true = codes "/sys/fs/cgroup/machine.slice"
slice false = codes "/sys/fs/cgroup/cpu/machine.slice"

-- The files below the group of a vCPU; `read_number` is what a stream reads as the number of a file.
unfoldable pub files_of : (Text → ℕ) → Bool → Text → Files
unfolding join decimal
files_of read_number v2 path =
    let proc_id = read_number (join path (codes "cgroup.threads")) in
    record {
      proc_id = proc_id;
      usage = join path (if v2 then codes "cpu.stat" else codes "cpuacct.usage");
      limit = join path (if v2 then codes "cpu.max" else codes "cpu.cfs_quota_us");
      proc_path = codes "/proc/" ++ decimal proc_id ++ codes "/stat";
    }

abbrev pub located : (Text → ℕ) → Bool → ℕ → Option Text → Option Files
located read_number v2 vcpu_id none = none
located read_number v2 vcpu_id (some path) =
    some (files_of read_number v2 (join path (codes "vcpu" ++ decimal vcpu_id)))

unfoldable pub enable : (Text → ℕ) → Bool → Text → ℕ → List Node → Option Files
unfolding wait_group files_of
enable read_number v2 vm_name vcpu_id trees =
    located read_number v2 vcpu_id (wait_group (codes "v" ++ vm_name) (slice v2) trees)
