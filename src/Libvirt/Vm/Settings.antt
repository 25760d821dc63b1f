-- ===== src/Libvirt/Vm/Settings.antt =====
-- src/monitor/libvirt/vm.cc: the constructor from a name, and the setters. A getter is the field.
use cgroup_monitor.Prelude.{ℕ, Bool, none, [], Text, codes}
use cgroup_monitor.Prelude.Words.{ℤ, pos}
use cgroup_monitor.Floats.{Floats}
use cgroup_monitor.Libvirt.Actions.{chop}
use cgroup_monitor.Libvirt.Vcpu.{Garbage}
use cgroup_monitor.Libvirt.Vm.{Vm, controllers, to_unsigned}

module _ {F : Floats} where
  -- The setters.
  unfoldable pub set_qcow : Text → Vm F → Vm F
  set_qcow path vm = record vm { qcow = path }

  unfoldable pub set_user : Text → Vm F → Vm F
  set_user name vm = record vm { user_name = name }

  -- With the content of the file.
  unfoldable pub set_pub_key : Text → Vm F → Vm F
  unfolding chop
  set_pub_key content vm = record vm { pub_key = chop content }

  unfoldable pub set_disk : ℤ → Vm F → Vm F
  set_disk size vm = record vm { disk = size }

  unfoldable pub set_memory_sla : F.Float → Vm F → Vm F
  set_memory_sla sla vm = record vm { memory_sla = sla }

  unfoldable pub set_memory : ℤ → Vm F → Vm F
  set_memory size vm = record vm { mem = size }

  -- The controllers stay as they are.
  unfoldable pub set_vcpus : ℤ → Vm F → Vm F
  set_vcpus nb vm = record vm { nb_vcpus = nb }

  unfoldable pub set_mac : Text → Vm F → Vm F
  set_mac value vm = record vm { mac = value }

  unfoldable pub set_ip : Text → Vm F → Vm F
  set_ip value vm = record vm { ip = value }

  unfoldable pub set_freq : ℤ → Vm F → Vm F
  set_freq fr vm = record vm { freq = fr }

  -- The constructor from a name, with the content of the key file in the HOME of the user; it leaves
  -- the frequency as it is found in memory.
  unfoldable pub vm_of_name : (ℕ → Garbage F) → Bool → ℤ → Text → Text → Vm F
  unfolding controllers chop
  vm_of_name u v2 freq key name = record {
    dom = none;
    id = name;
    user_name = codes "phil";
    pub_key = chop key;
    qcow = [];
    disk = pos 10_000;
    nb_vcpus = pos 1;
    mem = pos 2_048;
    freq = freq;
    memory_sla = F.float_lit 1 2;
    ip = [];
    mac = [];
    vcpus = controllers u v2 name (to_unsigned freq) 0 1;
    money = 0;
  }
