-- ===== src/Tests/Samples.antt =====
-- A small host: one machine, one busy vCPU and one that is nearly idle.
use cgroup_monitor.Prelude.{true, none, List, [], ◌∷◌, codes}
use cgroup_monitor.Prelude.Words.{pos}
use cgroup_monitor.Floats.{fixed, plus}
use cgroup_monitor.Libvirt.Cgroup.{Cgroup}
use cgroup_monitor.Libvirt.Vcpu.{Vcpu}
use cgroup_monitor.Libvirt.Vm.{Vm}
use cgroup_monitor.Server.Market.Sale.{Config}

abbrev pub group : Cgroup
group = record { vm_name = codes "a"; v2 = true; limit = none }

abbrev pub busy : Vcpu fixed
busy = record {
  id = 0;
  nominal_freq = 1200;
  cgroup = group;
  period = 100_000;
  quota = 50_000;
  history = [];
  max_history = 2;
  slope = plus 5_000_000;
  sum_frequency = 0;
  last_frequency = 0;
  sum_consumption = 0;
  nb_micros = 0;
  micro_consumption = 1000;
  last_micro_consumption = 0;
  consumption = 480_000;
  micro_delta = plus 1_000_000;
  sum_delta = plus 0;
  delta = plus 1_000_000;
  allocated = 0;
  buying = 0;
}

abbrev pub idle : Vcpu fixed
idle = record busy { id = 1; slope = plus 0; consumption = 10_000 }

abbrev pub machine : List (Vcpu fixed) → Vm fixed
machine vcpus = record {
  dom = none;
  id = codes "a";
  user_name = [];
  pub_key = [];
  qcow = [];
  disk = pos 0;
  nb_vcpus = pos 2;
  mem = pos 0;
  freq = pos 1200;
  memory_sla = plus 500_000;
  ip = [];
  mac = [];
  vcpus = vcpus;
  money = 0;
}

abbrev pub host : List (Vm fixed)
host = machine (busy ∷ idle ∷ []) ∷ []

abbrev pub config : Config fixed
config = record {
  cpu_freq = pos 2400;
  trigger_increment = plus 950_000;
  trigger_decrement = plus 500_000;
  increasing_speed = plus 1_000_000;
  decreasing_speed = plus 200_000;
  window_size = 100_000;
}
