-- ===== src/Server/Market/Sale.antt =====
-- The first part of src/server/market/vcpu.{hh,cc}: the configuration and the sale of the base
-- cycles. A pointer to a controller is a pair of positions: of the machine, and of the vCPU in it.
pub mod Bounds
pub mod Base
use cgroup_monitor.Prelude.{
  ℕ, ◌+◌, ◌/◌, Bool, true, false, ◌&&◌, List, [], ◌∷◌, ◌++◌, min, max, ltb, if◌then◌else◌,
}
use cgroup_monitor.Prelude.Words.{ℤ, add64, sub64}
use cgroup_monitor.Floats.{Floats}
use cgroup_monitor.Libvirt.Vcpu.{Vcpu, absolute_capping, relative_percent_consumption, get_slope}
use cgroup_monitor.Libvirt.Vm.{Vm}

pub record Config (F : Floats) : Type 0 where
  pub cpu_freq : ℤ
  pub trigger_increment : F.Float
  pub trigger_decrement : F.Float
  pub increasing_speed : F.Float
  pub decreasing_speed : F.Float
  pub window_size : ℕ

-- A second, in microseconds: all that a vCPU can use.
abbrev pub max_cycles : ℕ
max_cycles = 1_000_000

abbrev pub min_cycles : ℕ
min_cycles = max_cycles / 100

-- What the sale of the base cycles to one vCPU changes; `buys` is the result.
pub record Sale (F : Floats) : Type 0 where
  pub vcpu : Vcpu F
  pub money : ℕ
  pub market : ℕ
  pub buys : Bool

abbrev pub Ptr : Type 0
Ptr = ℕ × ℕ

module _ {F : Floats} where
  open F use {
    float_lit, double_lit, float_neg, float_of, float_of_int, double_of, widen, to_ulong,
    double_to_ulong, fmul, fdiv, flt, dadd, dsub, dmul, dlt,
  }

  -- The end of each case: `current` is sold, and what is wanted beyond the nominal is to be bought.
  unfoldable pub deal : Vcpu F → (current wanted nominal money market : ℕ) → Sale F
  deal v current wanted nominal money market =
      if ltb nominal wanted
      then record {
        vcpu = record v {
          allocated = current;
          buying = min (sub64 max_cycles nominal) (sub64 wanted nominal);
        };
        money = money;
        market = sub64 market current;
        buys = true;
      }
      else record {
        vcpu = record v { allocated = current };
        money = add64 money (sub64 nominal wanted);
        market = sub64 market current;
        buys = false;
      }

  unfoldable pub nominal_cycles : Config F → Vcpu F → ℕ
  nominal_cycles cfg v =
      to_ulong
        (fmul (fdiv (float_of v.nominal_freq) (float_of_int cfg.cpu_freq)) (float_of max_cycles))

  -- What the vCPU wants while its consumption is stable, falls and rises.
  unfoldable pub stable_wish : Vcpu F → ℕ
  stable_wish v = min max_cycles (
      double_to_ulong
        (dadd (double_of v.consumption) (dmul (double_of max_cycles) (double_lit 1 100))))

  unfoldable pub falling_wish : Config F → Vcpu F → ℕ
  falling_wish cfg v = max min_cycles (
      max v.consumption (
        double_to_ulong (
          dmul (double_of (absolute_capping v))
            (dsub (double_lit 1 1) (widen cfg.decreasing_speed)))))

  unfoldable pub rising_wish : Config F → Vcpu F → ℕ
  rising_wish cfg v =
      double_to_ulong
        (dmul (double_of (absolute_capping v)) (dadd (double_lit 1 1) (widen cfg.increasing_speed)))

  abbrev pub usage : Vcpu F → F.Float
  usage v = fdiv (relative_percent_consumption v) (float_lit 100 1)

  abbrev pub is_stable : Vcpu F → Bool
  is_stable v =
      let slope = widen (get_slope v) in
      dlt (widen (float_neg (float_lit 1 10))) slope && dlt slope (widen (float_lit 1 10))

  unfoldable pub sell_base : Config F → Vcpu F → (money market : ℕ) → Sale F
  sell_base cfg v money market =
      let nominal = nominal_cycles cfg v in
      let capp = absolute_capping v in
      if is_stable v
      then deal v (max min_cycles (min nominal (stable_wish v))) (stable_wish v) nominal money
          market
      else (if flt (usage v) cfg.trigger_decrement
          then deal v (min nominal (falling_wish cfg v)) (falling_wish cfg v) nominal money market
          else (if flt cfg.trigger_increment (usage v)
              then deal v (max min_cycles (min nominal (rising_wish cfg v))) (rising_wish cfg v)
                  nominal money market
              else deal v (max min_cycles (min nominal capp)) capp nominal money market))

-- The results of the loops that sell the base cycles, over the vCPUs of a machine and over the
-- machines.
pub record SoldVcpus (F : Floats) : Type 0 where
  pub vcpus : List (Vcpu F)
  pub money : ℕ
  pub market : ℕ
  pub nb_vcpus : ℕ
  pub buyers : List Ptr

pub record SoldVms (F : Floats) : Type 0 where
  pub vms : List (Vm F)
  pub market : ℕ
  pub nb_vcpus : ℕ
  pub buyers : List Ptr

module _ {F : Floats} where
  unfoldable pub sell_vcpus : Config F → (i j money market nb : ℕ) → List (Vcpu F) → SoldVcpus F
  sell_vcpus cfg i j money market nb [] = record {
    vcpus = [];
    money = money;
    market = market;
    nb_vcpus = nb;
    buyers = [];
  }
  sell_vcpus cfg i j money market nb (c ∷ cs) =
      let s = sell_base cfg c money market in
      let rest = sell_vcpus cfg i (j + 1) s.money s.market (nb + 1) cs in
      record rest {
        vcpus = s.vcpu ∷ rest.vcpus;
        buyers = if s.buys then (i, j) ∷ rest.buyers else rest.buyers;
      }

  unfoldable pub sell_vms : Config F → (i market nb : ℕ) → List (Vm F) → SoldVms F
  sell_vms cfg i market nb [] = record { vms = []; market = market; nb_vcpus = nb; buyers = [] }
  sell_vms cfg i market nb (v ∷ vs) =
      let s = sell_vcpus cfg i 0 v.money market nb v.vcpus in
      let rest = sell_vms cfg (i + 1) s.market s.nb_vcpus vs in
      record rest {
        vms = record v { vcpus = s.vcpus; money = s.money } ∷ rest.vms;
        buyers = s.buyers ++ rest.buyers;
      }
