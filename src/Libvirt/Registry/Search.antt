-- ===== src/Libvirt/Registry/Search.antt =====
-- The searches of the list, and what a removal leaves.
use cgroup_monitor.Prelude.{
  ◌≡◌, ◌⊎◌, inl, inr, refl, true, false, none, some, List, [], ◌∷◌, ◌++◌, Text, text_eq,
  text_eq_iff, arith, Bool-cases, length, ◌≤◌,
}
use cgroup_monitor.Floats.{Floats}
use cgroup_monitor.Libvirt.Vm.{Vm}
use cgroup_monitor.Libvirt.Registry.{has_vm, get_vm, remove_vm, kill, provision}

module _ {F : Floats} where
  -- `hasVM` says exactly when `getVM` finds a machine, and the machine that it finds has the name.
  pub has_vm-get_vm :
      (name : Text) (vms : List (Vm F))
      → ((has_vm name vms ≡ true) × ((vm : Vm F) × (get_vm name vms ≡ some vm) × (vm.id ≡ name)))
        ⊎ ((has_vm name vms ≡ false) × (get_vm name vms ≡ none))
  unfolding has_vm get_vm
  has_vm-get_vm name [] = inr (refl, refl)
  has_vm-get_vm name (vm ∷ vms) = elim (Bool-cases (text_eq vm.id name)) [
    | inl same ↦ inl (rw (same) refl, (vm, rw (same) refl, (text_eq_iff vm.id name).0 same))
    | inr other ↦ elim (has_vm-get_vm name vms) [
      | inl (has, (v, found, e)) ↦ inl (rw (other) has, (v, rw (other) found, e))
      | inr (has, found) ↦ inr (rw (other) has, rw (other) found)
    ]
  ]

  -- After a removal no machine has the name.
  pub has_vm-remove_vm :
      (name : Text) (vms : List (Vm F)) → has_vm name (remove_vm name vms) ≡ false
  unfolding has_vm remove_vm
  has_vm-remove_vm name [] = refl
  has_vm-remove_vm name (vm ∷ vms) = elim (Bool-cases (text_eq vm.id name)) [
    | inl same ↦ rw (same) (has_vm-remove_vm name vms)
    | inr other ↦ rw (other) (rw (other) refl)
  ]

  length-remove_vm : (name : Text) (vms : List (Vm F)) → length (remove_vm name vms) ≤ 1
  unfolding remove_vm
  length-remove_vm name [] = omega arith
  length-remove_vm name (vm ∷ vms) = ground (arith, length-remove_vm name vms)

  -- A kill of a machine that is there leaves no machine of that name, and at most one machine in all:
  -- the others stay alive but are forgotten.
  pub kill-forgets :
      (name : Text) (vms : List (Vm F))
      → has_vm name vms ≡ true
      → (has_vm name (kill name vms) ≡ false) × (length (kill name vms) ≤ 1)
  unfolding kill
  kill-forgets name vms h = elim (has_vm-get_vm name vms) [
    | inl (has, (v, found, e)) ↦
        ground (arith, found, has_vm-remove_vm name vms, length-remove_vm name vms)
    | inr (has, found) ↦ cc
  ]

  get_vm-last :
      (vm : Vm F) (vms : List (Vm F))
      → has_vm vm.id vms ≡ false
      → get_vm vm.id (vms ++ vm ∷ []) ≡ some vm
  unfolding has_vm get_vm
  get_vm-last vm [] h = rw ((text_eq_iff vm.id vm.id).1 refl) refl
  get_vm-last vm (w ∷ vms) h = elim (Bool-cases (text_eq w.id vm.id)) [
    | inl same ↦ absurd (ground (arith, h, same))
    | inr other ↦ rw (other) (get_vm-last vm vms (rw (other) at h))
  ]

  -- A machine that has been provisioned is found under its name, whether or not that name was taken.
  -- If it was free, the machine joins all the others.
  pub provision_lem :
      (vm : Vm F) (vms : List (Vm F))
      → (get_vm vm.id (provision vm vms) ≡ some vm)
        × ((has_vm vm.id vms ≡ true) ⊎ (provision vm vms ≡ vms ++ vm ∷ []))
  unfolding provision kill
  provision_lem vm vms = elim (has_vm-get_vm vm.id vms) [
    | inl (has, (v, found, e)) ↦
        (rw (found) (get_vm-last vm (remove_vm vm.id vms) (has_vm-remove_vm vm.id vms)), inl has)
    | inr (has, found) ↦ (rw (found) (get_vm-last vm vms has), inr (rw (found) refl))
  ]
