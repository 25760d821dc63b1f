-- ===== src/Tests/Market.antt =====
-- The market on the small host.
use cgroup_monitor.Prelude.{
  ℕ, ◌+◌, ◌≤◌, ◌<◌, ◌≡◌, refl, ◌⊎◌, List, [], ◌∷◌, map, Option, none, some, arith, All, Each, true,
  false,
}
use cgroup_monitor.Prelude.Words.{is_negative}
use cgroup_monitor.Floats.{fixed}
use cgroup_monitor.Libvirt.Vcpu.{
  absolute_capping, relative_percent_consumption, get_slope, set_quota,
}
use cgroup_monitor.Libvirt.Vm.{Vm, apply_market_allocation}
use cgroup_monitor.Server.Market.Sale.{
  sell_base, sell_vcpus, sell_vms, nominal_cycles, stable_wish, falling_wish, rising_wish, deal,
}
use cgroup_monitor.Server.Market.Sale.Bounds.{wish, Sells, sell_base-Sells}
use cgroup_monitor.Server.Market.Sale.Base.{AreReady, IsReady, Untouched, owed, sell_vms-market}
use cgroup_monitor.Server.Market.Auction.{Auction, bid_pass, bid, purchase, buy_cycles}
use cgroup_monitor.Server.Market.Auction.Trade.{IsSound, Paid, total_cycles}
use cgroup_monitor.Server.Market.Auction.Finish.{
  Settled, buy_cycles-Settled, buy_cycles-Trades, buy_cycles-stops,
}
use cgroup_monitor.Server.Market.Round.{run, distribute}
use cgroup_monitor.Server.Market.Round.Share.{Shared, distribute-Granted}
use cgroup_monitor.Server.Market.Round.Guarantee.{Within, Applied}
use cgroup_monitor.Server.Market.Round.Result.{capacity, run-Applied, run_divides_by_zero}
use cgroup_monitor.Tests.Samples.{host, config, busy, idle, machine}

allocations : List (Vm fixed) → List (List ℕ)
allocations = map (λ vm. map (λ c. c.allocated) vm.vcpus)

or_nothing : Option (List (Vm fixed)) → List (Vm fixed)
or_nothing none = []
or_nothing (some vms) = vms

pub after_round : List (Vm fixed)
unfolding or_nothing
after_round = or_nothing (run 1 config host)

-- The busy vCPU is sold its share of 500000 cycles and buys 480000 more from what its machine saved.
round_result : allocations after_round ≡ (980_000 ∷ 20_000 ∷ []) ∷ []
unfolding after_round allocations run sell_base deal nominal_cycles stable_wish falling_wish
    rising_wish absolute_capping relative_percent_consumption get_slope sell_vcpus bid_pass bid
    purchase apply_market_allocation set_quota
round_result = refl

busy-IsReady : IsReady config busy
unfolding nominal_cycles
busy-IsReady = omega arith

idle-IsReady : IsReady config idle
unfolding nominal_cycles
idle-IsReady = omega arith

host-AreReady : AreReady config host
host-AreReady = ((omega arith, (busy-IsReady, (idle-IsReady, tt))), tt)

pub ran : run 1 config host ≡ some after_round
unfolding after_round or_nothing run sell_base deal nominal_cycles stable_wish falling_wish
    rising_wish absolute_capping relative_percent_consumption get_slope sell_vcpus bid_pass bid
    purchase apply_market_allocation set_quota
ran = refl

run-Applied_example :
    (capacity 1 < owed config host) × Each (Within Untouched) host after_round
    ⊎ (owed config host ≤ capacity 1) × Each (Within (Applied config)) host after_round
run-Applied_example =
    run-Applied 1 config host after_round (omega arith) (omega arith) host-AreReady ran

run_divides_by_zero_example : run 1 config (machine [] ∷ []) ≡ none
run_divides_by_zero_example =
    run_divides_by_zero 1 config (machine []) [] (omega arith) (omega arith) refl
      ((omega arith, tt), tt)

sell_base-Sells_example :
    Sells busy
      (nominal_cycles config busy)
      (wish config busy)
      0
      1_000_000
      (sell_base config busy 0 1_000_000)
sell_base-Sells_example =
    sell_base-Sells config busy 0 1_000_000 busy-IsReady.0 busy-IsReady.1 busy-IsReady.2

sell_vms-market_example :
    (1_000_000 < owed config host)
      × (is_negative (sell_vms config 0 1_000_000 0 host).market ≡ true)
    ⊎ ((sell_vms config 0 1_000_000 0 host).market + owed config host ≡ 1_000_000)
      × (is_negative (sell_vms config 0 1_000_000 0 host).market ≡ false)
sell_vms-market_example =
    sell_vms-market config 1_000_000 host host-AreReady (omega arith) (omega arith)

-- The auction after the sale: 480000 cycles for one buyer.
opened : Auction fixed
opened = record {
  vms =
      record (machine (
        record busy { allocated = 500_000; buying = 500_000 }
        ∷ record idle { allocated = 20_000 }
        ∷ [])) { money = 480_000 }
      ∷ [];
  market = 480_000;
  needed = 0;
  fails = [];
}

opened-IsSound : IsSound opened
unfolding opened
opened-IsSound = record { small = omega arith; fits = omega arith }

bought : Auction fixed
unfolding opened
bought = (buy_cycles 480_001 config ((0, 0) ∷ []) opened).0

buy_cycles-Settled_example : All (Settled config bought) ((0, 0) ∷ [])
unfolding bought
buy_cycles-Settled_example =
    buy_cycles-Settled 480_001 config ((0, 0) ∷ []) opened opened-IsSound
      (unfold opened in omega arith)

buy_cycles-Trades_example :
    Each Paid opened.vms bought.vms
    × (bought.market + total_cycles bought.vms ≡ opened.market + total_cycles opened.vms)
    × (bought.market ≤ opened.market)
unfolding bought
buy_cycles-Trades_example = buy_cycles-Trades 480_001 config ((0, 0) ∷ []) opened opened-IsSound

buy_cycles-stops_example :
    (bought.market ≡ 0) ⊎ ((buy_cycles 480_001 config ((0, 0) ∷ []) opened).1 ≡ [])
unfolding bought
buy_cycles-stops_example =
    buy_cycles-stops 480_001 config ((0, 0) ∷ []) opened opened-IsSound
      (unfold opened in omega arith)

distribute-Granted_example :
    Shared opened.vms 480_000 (distribute 500_000 480_000 ((0, 0) ∷ []) opened.vms 480_000)
distribute-Granted_example =
    distribute-Granted 500_000 480_000 ((0, 0) ∷ []) opened.vms 480_000
      (unfold opened in omega arith) (omega arith)
