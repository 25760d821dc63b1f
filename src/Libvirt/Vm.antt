-- ===== src/Libvirt/Vm.antt =====
-- src/monitor/libvirt/vm.{hh,cc}: a virtual machine, its account and its vCPU controllers.
pub mod Fresh
pub mod Settings
use cgroup_monitor.Prelude.{
  ℕ, zero, suc, ◌+◌, ◌-◌, Bool, Option, none, List, [], ◌∷◌, Text, codes, map,
}
use cgroup_monitor.Prelude.Words.{ℤ, pos, negsuc, word}
use cgroup_monitor.Floats.{Floats}
use cgroup_monitor.Libvirt.Vcpu.{Vcpu, Garbage, new_vcpu, set_quota}
use cgroup_monitor.Utils.Config.{
  Dict, Outcome, returns, ◌>>=◌, get_dict, get_text, get_or_text, get_or_int, get_or_float,
}

pub record Vm (F : Floats) : Type 0 where
  -- The domain, as libvirt names it.
  pub dom : Option ℕ
  pub id : Text
  pub user_name : Text
  pub pub_key : Text
  pub qcow : Text
  pub disk : ℤ
  pub nb_vcpus : ℤ
  pub mem : ℤ
  pub freq : ℤ
  pub memory_sla : F.Float
  pub ip : Text
  pub mac : Text
  pub vcpus : List (Vcpu F)
  pub money : ℕ

-- The conversion of an `int` to `unsigned long`.
abbrev pub to_unsigned : ℤ → ℕ
to_unsigned (pos n) = n
to_unsigned (negsuc n) = word - 1 - n

-- How often a loop from 0 to an `int` runs.
abbrev pub rounds : ℤ → ℕ
rounds (pos n) = n
rounds (negsuc n) = 0

module _ {F : Floats} where
  -- The loop that makes the controllers, with what each finds in its memory.
  unfoldable pub controllers : (ℕ → Garbage F) → Bool → Text → (freq i : ℕ) → ℕ → List (Vcpu F)
  unfolding new_vcpu
  controllers u v2 name freq i zero = []
  controllers u v2 name freq i (suc n) =
      new_vcpu (u i) i name v2 freq 5 ∷ controllers u v2 name freq (i + 1) n

  -- The constructor from a configuration; the environment has a HOME, which it does not use.
  unfoldable pub new_vm : (ℕ → Garbage F) → Bool → Dict F → Outcome (Vm F)
  new_vm u v2 cfg = do
    inner ← get_dict (codes "vm") cfg
    id ← get_text (codes "name") inner
    user ← get_or_text (codes "user") (codes "phil") inner
    image ← get_text (codes "image") inner
    disk ← get_or_int (codes "disk") (pos 10_000) inner
    vcpus ← get_or_int (codes "vcpus") (pos 1) inner
    mem ← get_or_int (codes "memory") (pos 2_048) inner
    freq ← get_or_int (codes "frequency") (pos 1_000) inner
    sla ← get_or_float (codes "memorySLA") (F.float_lit 1 2) inner
    key ← get_or_text (codes "ssh_key") [] inner
    returns (record {
      dom = none;
      id = id;
      user_name = user;
      pub_key = key;
      qcow = image;
      disk = disk;
      nb_vcpus = vcpus;
      mem = mem;
      freq = freq;
      memory_sla = sla;
      ip = [];
      mac = [];
      vcpus = controllers u v2 id (to_unsigned freq) 0 (rounds vcpus);
      money = 0;
    })

  unfoldable pub apply_market_allocation : ℕ → Vm F → Vm F
  apply_market_allocation period vm = record vm {
    vcpus = map (λ c. set_quota c c.allocated period) vm.vcpus;
  }
