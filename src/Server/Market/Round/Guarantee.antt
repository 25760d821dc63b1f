-- ===== src/Server/Market/Round/Guarantee.antt =====
-- What a whole round of the market guarantees to every vCPU.
use cgroup_monitor.Prelude.{
  ℕ, suc, ◌+◌, ◌/◌, ◌≤◌, ◌<◌, ◌≡◌, refl, subst, inl, inr, false, some, List, [], map, arith, Each,
  Each-comp, Each-weaken, Each-right, Each-map_right, Bool-cases, ◌==◌,
}
use cgroup_monitor.Prelude.Words.{word, half_word, is_positive, is_negative}
use cgroup_monitor.Floats.{Floats}
use cgroup_monitor.Libvirt.Vcpu.{Vcpu, set_quota, scaled_quota}
use cgroup_monitor.Libvirt.Vm.{Vm, apply_market_allocation}
use cgroup_monitor.Server.Market.Sale.{Config, SoldVms, sell_vms, max_cycles}
use cgroup_monitor.Server.Market.Sale.Base.{AreReady, guarantee, Offered, Prepared, sell_vms_lem}
use cgroup_monitor.Server.Market.Auction.{Auction}
use cgroup_monitor.Server.Market.Auction.Trade.{
  Served, Paid, IsSound, IsSound-Trades, AreSmall, IsSmall, total_cycles,
}
use cgroup_monitor.Server.Market.Auction.Finish.{buy_cycles-Trades_lem}
use cgroup_monitor.Server.Market.Round.{raise, raise_in, spread, share_rest, auction}
use cgroup_monitor.Server.Market.Round.Share.{Granted}

module _ {F : Floats} where
  abbrev pub Within : (Vcpu F → Vcpu F → Type 0) → Vm F → Vm F → Type 0
  Within R v w = Each R v.vcpus w.vcpus

  -- A vCPU has its guarantee, and what it has and wants is at most a second.
  abbrev pub Backed : Config F → Vcpu F → Vcpu F → Type 0
  Backed cfg c d = (guarantee cfg c ≤ d.allocated) × (d.allocated + d.buying ≤ max_cycles)

  -- The end of a round: the guarantee is kept, and no vCPU has more than a second.
  abbrev pub Kept : Config F → Vcpu F → Vcpu F → Type 0
  Kept cfg c d = (guarantee cfg c ≤ d.allocated) × (d.allocated ≤ max_cycles)

  -- The same, once the quotas are set.
  abbrev pub Applied : Config F → Vcpu F → Vcpu F → Type 0
  Applied cfg c d = Kept cfg c d × (d.quota ≡ scaled_quota d d.allocated 100_000)

  -- The state after the sale, at the start of the auction.
  abbrev pub opening : SoldVms F → Auction F
  opening s = record { vms = s.vms; market = s.market; needed = 0; fails = [] }

  module _ (cfg : Config F) where
    Backed-sale :
        (vs ws : List (Vm F)) → Each (Prepared cfg) vs ws → Each (Within (Backed cfg)) vs ws
    Backed-sale =
        Each-weaken (Prepared cfg) (Within (Backed cfg))
          λ v w p. Each-weaken (Offered cfg) (Backed cfg) (λ c d q. omega arith) v.vcpus w.vcpus p.0

    Backed-Served :
        (u v w : Vm F) → Within (Backed cfg) u v → Within Served v w → Within (Backed cfg) u w
    Backed-Served u v w =
        Each-comp (Backed cfg) Served (Backed cfg) (λ c d e p q. omega arith) u.vcpus v.vcpus
          w.vcpus

    Backed-Paid :
        (us vs ws : List (Vm F))
        → Each (Within (Backed cfg)) us vs
        → Each Paid vs ws
        → Each (Within (Backed cfg)) us ws
    Backed-Paid =
        Each-comp (Within (Backed cfg)) Paid (Within (Backed cfg))
          λ u v w p q. Backed-Served u v w p q.0

    pub Backed-Granted :
        (us vs ws : List (Vm F))
        → Each (Within (Backed cfg)) us vs
        → Each Granted vs ws
        → Each (Within (Backed cfg)) us ws
    Backed-Granted =
        Each-comp (Within (Backed cfg)) Granted (Within (Backed cfg))
          λ u v w p q. Backed-Served u v w p q.0

    Kept-spread :
        (share : ℕ)
        → share < half_word
        → (vs ws : List (Vm F)) → Each (Within (Backed cfg)) vs ws
        → Each (Within (Kept cfg)) vs (spread share ws)
    unfolding spread
    Kept-spread share h =
        Each-map_right (Within (Backed cfg)) (Within (Kept cfg)) (raise_in share) λ v w p.
          Each-map_right (Backed cfg) (Kept cfg) (raise share) (λ c d q. omega arith) v.vcpus
            w.vcpus p

    Kept-Backed :
        (vs ws : List (Vm F)) → Each (Within (Backed cfg)) vs ws → Each (Within (Kept cfg)) vs ws
    Kept-Backed =
        Each-weaken (Within (Backed cfg)) (Within (Kept cfg))
          λ v w p. Each-weaken (Backed cfg) (Kept cfg) (λ c d q. omega arith) v.vcpus w.vcpus p

    set_quota-Applied :
        (c d : Vcpu F) → Kept cfg c d → Applied cfg c (set_quota d d.allocated 100_000)
    unfolding set_quota scaled_quota
    set_quota-Applied c d q = (q, refl)

    pub Applied-Kept :
        (vs ws : List (Vm F))
        → Each (Within (Kept cfg)) vs ws
        → Each (Within (Applied cfg)) vs (map (apply_market_allocation 100_000) ws)
    unfolding apply_market_allocation
    Applied-Kept =
        Each-map_right (Within (Kept cfg)) (Within (Applied cfg)) (apply_market_allocation 100_000)
          λ v w p.
            Each-map_right (Kept cfg) (Applied cfg) (λ c. set_quota c c.allocated 100_000)
              set_quota-Applied v.vcpus w.vcpus p

    pub share_rest-Kept :
        (nb left : ℕ) (vs ws us : List (Vm F))
        → Each (Within (Backed cfg)) vs ws
        → share_rest nb (ws, left) ≡ some us
        → Each (Within (Kept cfg)) vs us
    unfolding share_rest
    share_rest-Kept nb left vs ws us b e = elim (Bool-cases (is_positive left)) [
      | inl go ↦ elim (Bool-cases (nb == 0)) [
        | inl z ↦ absurd (ground (arith, go, z))
        | inr nz ↦
            let e' : spread (left / nb) ws ≡ us = ground (arith, go, nz) in
            subst (Each (Within (Kept cfg)) vs) e'
              (Kept-spread (left / nb) (ground (arith, go, nz)) vs ws b)
      ]
      | inr stop ↦
          let e' : ws ≡ us = ground (arith, stop) in
          subst (Each (Within (Kept cfg)) vs) e' (Kept-Backed vs ws b)
    ]

    Small-Prepared : (vs ws : List (Vm F)) → Each (Prepared cfg) vs ws → AreSmall ws
    Small-Prepared =
        Each-right (Prepared cfg) _ λ v w p.
          (p.1, Each-right (Offered cfg) IsSmall (λ c d q. omega arith) v.vcpus w.vcpus p.0)

    -- The auction after a sale is sound, and backs every vCPU.
    pub auction-Backed :
        (market : ℕ) (vms : List (Vm F))
        → AreReady cfg vms
        → market < word
        → let s = sell_vms cfg 0 market 0 vms in
          is_negative s.market ≡ false
          → let a = auction cfg s in
            IsSound a
            × Each (Within (Backed cfg)) vms a.vms
            × (a.market + total_cycles a.vms ≡ s.market + total_cycles s.vms)
    unfolding auction
    auction-Backed market vms r k n =
        let s = sell_vms cfg 0 market 0 vms in
        let (all, _, _) = sell_vms_lem cfg 0 market 0 vms r k in
        let sound : IsSound (opening s) = record {
          small = Small-Prepared vms s.vms all;
          fits = ground arith;
        } in
        let t = buy_cycles-Trades_lem (suc s.market) cfg s.buyers (opening s) sound in
        (
          IsSound-Trades (opening s) (auction cfg s) sound t,
          Backed-Paid vms s.vms (auction cfg s).vms (Backed-sale vms s.vms all) t.paid,
          t.sold,
        )
