-- ===== src/Server/Market/Round/SteadyRound.antt =====
-- What a round of the market leaves alone: the shares and the whole round.
use cgroup_monitor.Prelude.{
  ℕ, suc, ◌/◌, ◌%◌, ◌≡◌, ◌∙◌, refl, sym, subst, inl, inr, Option, none, some, List, [], ◌∷◌, map,
  arith, Each, Each-map, Bool-cases, Option-cases, ◌==◌,
}
use cgroup_monitor.Prelude.Words.{word, is_positive, is_negative}
use cgroup_monitor.Floats.{Floats}
use cgroup_monitor.Libvirt.Vcpu.{Vcpu, set_quota}
use cgroup_monitor.Libvirt.Vm.{Vm, apply_market_allocation}
use cgroup_monitor.Server.Market.Sale.{Config, Ptr, SoldVms}
use cgroup_monitor.Server.Market.Auction.{Auction, grant, seat}
use cgroup_monitor.Server.Market.Round.{
  run, auction, part, distribute, share_failed, share_rest, spread, raise_in, raise,
}
use cgroup_monitor.Server.Market.Round.Result.{capacity, sold, finish, run-nil, run-over, run-fits}
use mathlib.Core.Option.{some-injective}
use cgroup_monitor.Server.Market.Round.Steady.{
  KeepsReadings, Steady, AllSteady, AllSteady-refl, AllSteady-trans, grant-AllSteady,
  sell_vms-AllSteady, buy_cycles-GoesOn,
}

module _ {F : Floats} where
  distribute-AllSteady :
      (needed rest : ℕ) (ps : List Ptr) (vms : List (Vm F)) (not_sold : ℕ)
      → AllSteady vms (distribute needed rest ps vms not_sold).0
  unfolding distribute
  distribute-AllSteady needed rest [] vms not_sold = AllSteady-refl vms
  distribute-AllSteady needed rest (p ∷ ps) vms not_sold = elim (Option-cases (seat p vms)) [
    | inl gone ↦ rw (gone, distribute) (distribute-AllSteady needed rest ps vms not_sold)
    | inr ((money, c), found) ↦
        rw (found, distribute)
          (AllSteady-trans vms (grant (part needed rest c) p vms) _
            (grant-AllSteady (part needed rest c) p vms)
            (distribute-AllSteady needed rest ps (grant (part needed rest c) p vms) _))
  ]

  share_failed-AllSteady : (a : Auction F) → AllSteady a.vms (share_failed a).0
  unfolding share_failed
  share_failed-AllSteady a = elim (Bool-cases (is_positive a.market)) [
    | inl left ↦ rw (left) (distribute-AllSteady a.needed _ a.fails a.vms a.market)
    | inr none_left ↦ rw (none_left) (AllSteady-refl a.vms)
  ]

  map-AllSteady :
      (f : Vcpu F → Vcpu F) (g : Vm F → Vm F) (vms : List (Vm F))
      → ((v : Vm F) → ((g v).vcpus ≡ map f v.vcpus) × ((g v).money ≡ v.money) × ((g v).id ≡ v.id))
      → ((c : Vcpu F) → KeepsReadings c (f c))
      → AllSteady vms (map g vms)
  map-AllSteady f g vms h k = Each-map Steady g vms λ v. (
    subst (Each KeepsReadings v.vcpus) (sym (h v).0) (Each-map KeepsReadings f v.vcpus k),
    λ m. omega (arith, (h v).1),
    (h v).2,
  )

  spread-AllSteady : (share : ℕ) (vms : List (Vm F)) → AllSteady vms (spread share vms)
  unfolding spread
  spread-AllSteady share vms =
      map-AllSteady (raise share) (raise_in share) vms (λ v. (refl, refl, refl))
        (λ c. (refl, refl, refl, refl))

  share_rest-AllSteady :
      (nb : ℕ) (vms : List (Vm F)) (left : ℕ) (us : List (Vm F))
      → share_rest nb (vms, left) ≡ some us
      → AllSteady vms us
  unfolding share_rest
  share_rest-AllSteady nb vms left us e = elim (Bool-cases (is_positive left)) [
    | inl more ↦ elim (Bool-cases (nb == 0)) [
      | inl nobody ↦ absurd (ground (arith, more, nobody))
      | inr some_vcpu ↦
          let same : spread (left / nb) vms ≡ us = ground (arith, more, some_vcpu) in
          subst (AllSteady vms) same (spread-AllSteady (left / nb) vms)
    ]
    | inr none_left ↦
        let same : vms ≡ us = ground (arith, none_left) in
        subst (AllSteady vms) same (AllSteady-refl vms)
  ]

  apply-AllSteady : (vms : List (Vm F)) → AllSteady vms (map (apply_market_allocation 100_000) vms)
  unfolding apply_market_allocation set_quota
  apply-AllSteady vms =
      map-AllSteady (λ c. set_quota c c.allocated 100_000) (apply_market_allocation 100_000) vms
        (λ v. (refl, refl, refl)) (λ c. (refl, refl, refl, refl))

  auction-AllSteady : (cfg : Config F) (s : SoldVms F) → AllSteady s.vms (auction cfg s).vms
  unfolding auction
  auction-AllSteady cfg s =
      buy_cycles-GoesOn (suc s.market) cfg s.buyers
        (record { vms = s.vms; market = s.market; needed = 0; fails = [] })

  finished-AllSteady :
      (nprocs : ℕ) (cfg : Config F) (vms : List (Vm F)) (r : Option (List (Vm F)))
      (us : List (Vm F))
      → ((ws : List (Vm F)) → r ≡ some ws → AllSteady vms ws)
      → finish nprocs cfg r ≡ some us
      → AllSteady vms us
  finished-AllSteady nprocs cfg vms none us h e = cc
  finished-AllSteady nprocs cfg vms (some ws) us h e =
      let same : map (apply_market_allocation 100_000) ws ≡ us = ground arith in
      subst (AllSteady vms) same (AllSteady-trans vms ws _ (h ws refl) (apply-AllSteady ws))

  -- A round of the market keeps the names of the machines, and of every vCPU all but the allocation, the wish
  -- to buy, the quota, the period and the control group. Money that fits its word still fits.
  pub run-AllSteady :
      (nprocs : ℕ) (cfg : Config F) (vms us : List (Vm F))
      → run nprocs cfg vms ≡ some us
      → AllSteady vms us
  run-AllSteady nprocs cfg [] us e =
      subst (AllSteady []) (some-injective _ _ (run-nil nprocs cfg ∙ e)) tt
  run-AllSteady nprocs cfg (v ∷ vs) us e =
      let vms = v ∷ vs in
      let s = sold nprocs cfg vms in
      let offered = sell_vms-AllSteady cfg 0 (capacity nprocs % word) 0 vms in
      elim (Bool-cases (is_negative s.market)) [
        | inl over ↦
            subst (AllSteady vms) (some-injective _ _ (sym (run-over nprocs cfg v vs over) ∙ e))
              offered
        | inr fits ↦
            let a = auction cfg s in
            let r = share_failed a in
            finished-AllSteady nprocs cfg vms (share_rest s.nb_vcpus r) us
              (λ ws ew. AllSteady-trans vms s.vms ws offered (
                AllSteady-trans s.vms a.vms ws (auction-AllSteady cfg s) (
                  AllSteady-trans a.vms r.0 ws (share_failed-AllSteady a)
                    (share_rest-AllSteady s.nb_vcpus r.0 r.1 ws ew))))
              (sym (run-fits nprocs cfg v vs fits) ∙ e)
      ]
