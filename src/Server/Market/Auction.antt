-- ===== src/Server/Market/Auction.antt =====
-- `buyCycles` of src/server/market/vcpu.cc: the auction among the vCPUs that want more.
pub mod Trade
pub mod Finish
use cgroup_monitor.Prelude.{
  ℕ, zero, suc, Bool, true, false, not, ◌&&◌, Option, none, some, List, [], ◌∷◌, ◌++◌, min, ◌==◌,
  if◌then◌else◌, get_elem?, modify,
}
use cgroup_monitor.Prelude.Words.{add64, sub64, is_positive}
use cgroup_monitor.Floats.{Floats}
use cgroup_monitor.Libvirt.Vcpu.{Vcpu}
use cgroup_monitor.Libvirt.Vm.{Vm}
use cgroup_monitor.Server.Market.Sale.{Config, Ptr}

-- The state of the auction.
pub record Auction (F : Floats) : Type 0 where
  pub vms : List (Vm F)
  pub market : ℕ
  pub needed : ℕ
  pub fails : List Ptr

abbrev pub is_empty {ℓ} : {A : Type ℓ} → List A → Bool
is_empty [] = true
is_empty (x ∷ xs) = false

module _ {F : Floats} where
  abbrev pub with_money : ℕ → Option (Vcpu F) → Option (ℕ × Vcpu F)
  with_money m none = none
  with_money m (some c) = some (m, c)

  abbrev pub seat_in : ℕ → Option (Vm F) → Option (ℕ × Vcpu F)
  seat_in j none = none
  seat_in j (some vm) = with_money vm.money (get_elem? vm.vcpus j)

  -- What a pointer leads to: the money of the machine, and the vCPU.
  unfoldable pub seat : Ptr → List (Vm F) → Option (ℕ × Vcpu F)
  seat (i, j) vms = seat_in j (get_elem? vms i)

  -- `n` cycles go from the wishes of a vCPU to its allocation.
  abbrev pub receive : ℕ → Vcpu F → Vcpu F
  receive n c = record c { allocated = add64 c.allocated n; buying = sub64 c.buying n }

  abbrev pub grant_in : ℕ → ℕ → Vm F → Vm F
  grant_in n j vm = record vm { vcpus = modify vm.vcpus j (receive n) }

  abbrev pub purchase_in : ℕ → ℕ → Vm F → Vm F
  purchase_in n j vm = record vm { money = sub64 vm.money n; vcpus = modify vm.vcpus j (receive n) }

  unfoldable pub grant : ℕ → Ptr → List (Vm F) → List (Vm F)
  grant n (i, j) vms = modify vms i (grant_in n j)

  -- The same, paid by the machine.
  unfoldable pub purchase : ℕ → Ptr → List (Vm F) → List (Vm F)
  purchase n (i, j) vms = modify vms i (purchase_in n j)

  -- What a buyer gets in one bid: what it can pay within the window, wants, and what is left.
  abbrev pub affordable : Config F → ℕ → Vcpu F → ℕ → ℕ
  affordable cfg money c market = min (min (min cfg.window_size money) c.buying) market

  abbrev pub bid_for : Config F → Ptr → Auction F → ℕ × Vcpu F → Auction F × Bool
  bid_for cfg p a (money, c) =
      let bought = affordable cfg money c a.market in
      if c.buying == 0
      then (a, false)
      else (if bought == 0
          then (record a { needed = add64 a.needed c.buying; fails = a.fails ++ p ∷ [] }, false)
          else (record a { vms = purchase bought p a.vms; market = sub64 a.market bought }, true))

  -- One bid, and whether the buyer stays in the list. The pointers of the source never dangle.
  unfoldable pub bid : Config F → Ptr → Auction F → Auction F × Bool
  unfolding seat
  bid cfg p a = elim (seat p a.vms) [ none ↦ (a, false) | some s ↦ bid_for cfg p a s ]

  -- The inner loop of `buyCycles`, with the buyers that stay.
  unfoldable pub bid_pass : Config F → List Ptr → Auction F → Auction F × List Ptr
  bid_pass cfg [] a = (a, [])
  bid_pass cfg (p ∷ ps) a =
      let (a', stays) = bid cfg p a in
      let (a'', kept) = bid_pass cfg ps a' in (a'', if stays then p ∷ kept else kept)

  -- Its outer loop on fuel, with the buyers that are left.
  unfoldable pub buy_cycles : ℕ → Config F → List Ptr → Auction F → Auction F × List Ptr
  buy_cycles zero cfg ps a = (a, ps)
  buy_cycles (suc fuel) cfg ps a =
      let rest = (let (a', kept) = bid_pass cfg ps a in buy_cycles fuel cfg kept a') in
      if is_positive a.market && not (is_empty ps) then rest else (a, ps)
