-- ===== src/Libvirt/Registry.antt =====
-- The list of running machines in src/monitor/libvirt/client.cc.
pub mod Search
use cgroup_monitor.Prelude.{
  ℕ, Bool, true, false, Option, none, some, List, [], ◌∷◌, ◌++◌, Text, text_eq, if◌then◌else◌,
}
use cgroup_monitor.Floats.{Floats}
use cgroup_monitor.Libvirt.Vcpu.{Vcpu, Sample, update, update_before_market}
use cgroup_monitor.Libvirt.Vm.{Vm}

module _ {F : Floats} where
  unfoldable pub has_vm : Text → List (Vm F) → Bool
  has_vm name [] = false
  has_vm name (vm ∷ vms) = let rest = has_vm name vms in if text_eq vm.id name then true else rest

  unfoldable pub get_vm : Text → List (Vm F) → Option (Vm F)
  get_vm name [] = none
  get_vm name (vm ∷ vms) =
      let rest = get_vm name vms in if text_eq vm.id name then some vm else rest

  -- The loop leaves at the first machine that it keeps.
  unfoldable pub remove_vm : Text → List (Vm F) → List (Vm F)
  remove_vm name [] = []
  remove_vm name (vm ∷ vms) =
      let rest = remove_vm name vms in if text_eq vm.id name then rest else vm ∷ []

  abbrev pub kill_found : Text → List (Vm F) → Option (Vm F) → List (Vm F)
  kill_found name vms none = vms
  kill_found name vms (some vm) = remove_vm name vms

  -- What `kill` does to the list; the domain and its files are libvirt's and the disk's.
  unfoldable pub kill : Text → List (Vm F) → List (Vm F)
  unfolding get_vm remove_vm
  kill name vms = kill_found name vms (get_vm name vms)

  -- What `provision` does to it, once the machine has booted.
  unfoldable pub provision : Vm F → List (Vm F) → List (Vm F)
  unfolding kill
  provision vm vms = kill vm.id vms ++ vm ∷ []
