-- ===== src/Server/Market/Round.antt =====
-- `run` and `reset` of src/server/market/vcpu.cc: one round of the market.
pub mod Share
pub mod Guarantee
pub mod Result
pub mod Steady
pub mod SteadyRound
use cgroup_monitor.Prelude.{
  ℕ, suc, ◌*◌, ◌/◌, ◌%◌, Option, none, some, List, [], ◌∷◌, map, min, ◌==◌, if◌then◌else◌,
}
use cgroup_monitor.Prelude.Words.{word, add64, sub64, is_positive, is_negative}
use cgroup_monitor.Floats.{Floats}
use cgroup_monitor.Libvirt.Vcpu.{Vcpu}
use cgroup_monitor.Libvirt.Vm.{Vm, apply_market_allocation}
use cgroup_monitor.Server.Market.Sale.{Config, Ptr, SoldVms, sell_vms, max_cycles}
use cgroup_monitor.Server.Market.Auction.{Auction, buy_cycles, seat, grant, is_empty}

module _ {F : Floats} where
  open F use {float_of, to_ulong, fmul, fdiv}

  -- The part of `rest` cycles for a vCPU that wanted a part of `needed`.
  unfoldable pub part : (needed rest : ℕ) → Vcpu F → ℕ
  part needed rest c =
      min c.buying (to_ulong (fmul (fdiv (float_of c.buying) (float_of needed)) (float_of rest)))

  -- The loop over the failed bids; the second number is `notSold`.
  unfoldable pub distribute : (needed rest : ℕ) → List Ptr → List (Vm F) → ℕ → List (Vm F) × ℕ
  distribute needed rest [] vms not_sold = (vms, not_sold)
  distribute needed rest (p ∷ ps) vms not_sold = elim (seat p vms) [
    | none ↦ distribute needed rest ps vms not_sold
    | some (money, c) ↦
        distribute needed rest ps (grant (part needed rest c) p vms)
          (sub64 not_sold (part needed rest c))
  ]

  abbrev pub raise : ℕ → Vcpu F → Vcpu F
  raise share c = record c { allocated = min max_cycles (add64 c.allocated share) }

  abbrev pub raise_in : ℕ → Vm F → Vm F
  raise_in share vm = record vm { vcpus = map (raise share) vm.vcpus }

  -- The rest, in equal shares to all vCPUs.
  unfoldable pub spread : ℕ → List (Vm F) → List (Vm F)
  spread share vms = map (raise_in share) vms

  -- The shares for the failed bids, and what is not sold then.
  unfoldable pub share_failed : Auction F → List (Vm F) × ℕ
  unfolding distribute
  share_failed a =
      if is_positive a.market
      then distribute a.needed (min a.needed a.market) a.fails a.vms a.market
      else (a.vms, a.market)

  -- The shares of the rest; `none` is the division by zero.
  unfoldable pub share_rest : ℕ → List (Vm F) × ℕ → Option (List (Vm F))
  unfolding spread
  share_rest nb (vms, left) =
      if is_positive left
      then (if nb == 0 then none else some (spread (left / nb) vms))
      else some vms

  unfoldable pub auction : Config F → SoldVms F → Auction F
  unfolding buy_cycles
  auction cfg s =
      (buy_cycles (suc s.market) cfg s.buyers
        (record { vms = s.vms; market = s.market; needed = 0; fails = [] })).0

  -- `run` on a host with `nprocs` processors, fewer than 2,148: with more, the product of two `int`s overflows.
  unfoldable pub run : ℕ → Config F → List (Vm F) → Option (List (Vm F))
  unfolding sell_vms auction share_failed share_rest
  run nprocs cfg vms =
      if is_empty vms
      then some vms
      else (let s = sell_vms cfg 0 (nprocs * 1_000_000 % word) 0 vms in
          if is_negative s.market
          then some s.vms
          else elim (share_rest s.nb_vcpus (share_failed (auction cfg s))) [
            | none ↦ none
            | some shared ↦ some (map (apply_market_allocation 100_000) shared)
          ])

  abbrev broke : Vm F → Vm F
  broke vm = record vm { money = 0 }

  unfoldable pub reset : List (Vm F) → List (Vm F)
  reset vms = map broke vms
