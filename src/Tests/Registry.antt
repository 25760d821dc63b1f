-- ===== src/Tests/Registry.antt =====
-- The list of machines at concrete machines.
use cgroup_monitor.Prelude.{
  ◌≡◌, ◌≤◌, ◌⊎◌, refl, true, false, some, List, [], ◌∷◌, ◌++◌, Text, codes, text_eq, length,
}
use cgroup_monitor.Floats.{fixed}
use cgroup_monitor.Libvirt.Vm.{Vm}
use cgroup_monitor.Libvirt.Registry.{has_vm, get_vm, remove_vm, kill, provision}
use cgroup_monitor.Libvirt.Registry.Search.{kill-forgets, provision_lem}
use cgroup_monitor.Tests.Samples.{machine}

abbrev pub named : Text → Vm fixed
named name = record (machine []) { id = name }

abbrev pub three : List (Vm fixed)
three = named (codes "a") ∷ named (codes "b") ∷ named (codes "c") ∷ []

-- Killing one of three machines forgets another one too.
killed : kill (codes "b") three ≡ named (codes "a") ∷ []
unfolding kill get_vm remove_vm text_eq
killed = refl

kill-forgets_example :
    (has_vm (codes "b") (kill (codes "b") three) ≡ false) × (length (kill (codes "b") three) ≤ 1)
unfolding has_vm text_eq
kill-forgets_example = kill-forgets (codes "b") three refl

provision_lem_example :
    (get_vm (codes "d") (provision (named (codes "d")) three) ≡ some (named (codes "d")))
    × ((has_vm (codes "d") three ≡ true)
        ⊎ (provision (named (codes "d")) three ≡ three ++ named (codes "d") ∷ []))
provision_lem_example = provision_lem (named (codes "d")) three
