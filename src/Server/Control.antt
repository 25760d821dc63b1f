-- ===== src/Server/Control.antt =====
-- The control loop of src/server/control.cc, one frame at a time. What the host delivers in a frame, the
-- frequencies of its processors and the reading of each vCPU, is an argument; no machine is added or
-- removed by another thread within a frame.
pub mod Frames
pub mod Settings
use cgroup_monitor.Prelude.{ℕ, ◌+◌, Bool, Option, none, some, List, [], ◌∷◌, ◌==◌, if◌then◌else◌}
use cgroup_monitor.Floats.{Floats}
use cgroup_monitor.Libvirt.Vcpu.{Vcpu, Sample, update, update_before_market}
use cgroup_monitor.Libvirt.Vm.{Vm}
use cgroup_monitor.Server.Market.Sale.{Config}
use cgroup_monitor.Server.Market.Round.{run}

pub record Controller (F : Floats) : Type 0 where
  pub market_enabled : Bool
  pub config : Config F
  -- The variable `i` of the loop.
  pub i : ℕ
  pub vms : List (Vm F)

-- What a frame reads: the frequencies, and the sample of the vCPU at two positions.
pub record Input (F : Floats) : Type 0 where
  pub freq : List ℕ
  pub sample : ℕ → ℕ → Sample F

infixl 5 ◌>>=◌
abbrev pub ◌>>=◌ : {A B : Type 0} → Option A → (A → Option B) → Option B
none >>= f = none
some a >>= f = f a

module _ {F : Floats} where
  -- The loops over the vCPUs of a machine and over the machines.
  unfoldable pub each_vcpu :
      (ℕ → Vcpu F → Option (Vcpu F)) → ℕ → List (Vcpu F) → Option (List (Vcpu F))
  each_vcpu f j [] = some []
  each_vcpu f j (c ∷ cs) = do c' ← f j c; cs' ← each_vcpu f (j + 1) cs; some (c' ∷ cs')

  unfoldable pub each_vm :
      (ℕ → ℕ → Vcpu F → Option (Vcpu F)) → ℕ → List (Vm F) → Option (List (Vm F))
  each_vm f i [] = some []
  each_vm f i (v ∷ vs) = do
    cs ← each_vcpu (f i) 0 v.vcpus
    vs' ← each_vm f (i + 1) vs
    some (record v { vcpus = cs } ∷ vs')

  unfoldable pub update_vcpu_controllers : Input F → List (Vm F) → Option (List (Vm F))
  unfolding each_vm each_vcpu
  update_vcpu_controllers inp vms = each_vm (λ i j v. update inp.freq (inp.sample i j) v) 0 vms

  unfoldable pub update_vcpu_before_market : List (Vm F) → Option (List (Vm F))
  unfolding each_vm each_vcpu
  update_vcpu_before_market vms = each_vm (λ i j v. update_before_market v) 0 vms

  abbrev pub market_turn : ℕ → Controller F → List (Vm F) → Option (List (Vm F))
  market_turn nprocs c vms = update_vcpu_before_market vms >>= λ vms'.
      if c.market_enabled then run nprocs c.config vms' else some vms'

  -- One turn of `cpuControlLoop`: the market when `i` is 1, which sets `i` to 0; then `i` is raised.
  unfoldable pub frame : ℕ → Input F → Controller F → Option (Controller F)
  frame nprocs inp c = update_vcpu_controllers inp c.vms >>= λ vms.
      if c.i == 1
      then (market_turn nprocs c vms >>= λ vms'. some (record c { vms = vms'; i = 1 }))
      else some (record c { vms = vms; i = c.i + 1 })

  unfoldable pub frames : ℕ → List (Input F) → Controller F → Option (Controller F)
  unfolding frame
  frames nprocs [] c = some c
  frames nprocs (inp ∷ inps) c = frame nprocs inp c >>= λ c'. frames nprocs inps c'
