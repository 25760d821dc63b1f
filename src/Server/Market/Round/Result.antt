-- ===== src/Server/Market/Round/Result.antt =====
-- The result of `run`: what every machine has after a round, and when a round has no result.
use mathlib.Core.Option.{some-injective}
use cgroup_monitor.Prelude.{
  ℕ, suc, ◌+◌, ◌*◌, ◌/◌, ◌%◌, ◌≤◌, ◌<◌, ◌≡◌, refl, ap, sym, ◌∙◌, subst, ◌⊎◌, inl, inr, true, false,
  Option, none, some, List, [], ◌∷◌, map, arith, All-weaken, Each, Option-cases, Bool-cases,
}
use cgroup_monitor.Prelude.Words.{word, half_word, is_positive, is_negative}
use cgroup_monitor.Floats.{Floats}
use cgroup_monitor.Libvirt.Vm.{Vm, apply_market_allocation}
use cgroup_monitor.Server.Market.Sale.{Config, SoldVms, sell_vms, sell_vcpus, max_cycles}
use cgroup_monitor.Server.Market.Sale.Base.{
  AreReady, Untouched, owed, nb_of, sell_vms_lem, sell_vms-market, sell_vms-Untouched,
  total-Prepared,
}
use cgroup_monitor.Server.Market.Auction.{Auction, buy_cycles}
use cgroup_monitor.Server.Market.Auction.Finish.{buy_cycles-nil}
use cgroup_monitor.Server.Market.Auction.Trade.{IsSound}
use cgroup_monitor.Server.Market.Round.{share_rest, share_failed, spread, distribute, auction, run}
use cgroup_monitor.Server.Market.Round.Share.{share_failed-Granted, Tame}
use cgroup_monitor.Server.Market.Round.Guarantee.{
  Within, Backed, Applied, Backed-Granted, Applied-Kept, share_rest-Kept, auction-Backed, opening,
}

-- The cycles of a host: below 2 ^ 63, and with no overflow of the `int` product, up to 2147
-- processors.
abbrev pub capacity : ℕ → ℕ
capacity nprocs = nprocs * 1_000_000

module _ {F : Floats} (nprocs : ℕ) (cfg : Config F) where
  abbrev pub sold : List (Vm F) → SoldVms F
  sold vms = sell_vms cfg 0 (capacity nprocs % word) 0 vms

  pub run-over :
      (v : Vm F) (vs : List (Vm F))
      → is_negative (sold (v ∷ vs)).market ≡ true
      → run nprocs cfg (v ∷ vs) ≡ some (sold (v ∷ vs)).vms
  unfolding run
  run-over v vs e = rw e

  -- What `run` does from the shares on.
  abbrev pub finish : Option (List (Vm F)) → Option (List (Vm F))
  finish none = none
  finish (some vms) = some (map (apply_market_allocation 100_000) vms)

  pub run-fits :
      (v : Vm F) (vs : List (Vm F))
      → is_negative (sold (v ∷ vs)).market ≡ false
      → let s = sold (v ∷ vs) in
        run nprocs cfg (v ∷ vs) ≡ finish (share_rest s.nb_vcpus (share_failed (auction cfg s)))
  unfolding run
  run-fits v vs e = ground (arith, e)

  pub run-nil : some [] ≡ run nprocs cfg []
  unfolding run
  run-nil = refl

  share_rest-some :
      (nb : ℕ) (r : List (Vm F) × ℕ) → 0 < nb → (us : List (Vm F)) × (share_rest nb r ≡ some us)
  unfolding share_rest
  share_rest-some nb r h = elim (Bool-cases (is_positive r.1)) [
    | inl go ↦ (spread (r.1 / nb) r.0, ground (arith, go))
    | inr stop ↦ (r.0, ground (arith, stop))
  ]

  pub Tame-IsSound : (a : Auction F) → IsSound a → Tame a.vms
  Tame-IsSound a s = All-weaken _ _ (λ vm h. h.1) a.vms s.small

  finish-Applied :
      (vms : List (Vm F)) (a : Auction F) (nb : ℕ) (us : List (Vm F))
      → IsSound a
      → Each (Within (Backed cfg)) vms a.vms
      → finish (share_rest nb (share_failed a)) ≡ some us
      → Each (Within (Applied cfg)) vms us
  finish-Applied vms a nb us sound backed e =
      let r = share_failed a in
      let (given, _, _) = share_failed-Granted a (Tame-IsSound a sound) sound.fits in
      elim (Option-cases (share_rest nb r)) [
        | inl none_left ↦ absurd (ground (arith, none_left))
        | inr (ws, ew) ↦
            let e' : map (apply_market_allocation 100_000) ws ≡ us = ground (arith, ew) in
            subst (Each (Within (Applied cfg)) vms) e' (
              Applied-Kept cfg vms ws (
                share_rest-Kept cfg nb r.1 vms r.0 ws
                  (Backed-Granted cfg vms a.vms r.0 backed given) ew))
      ]

  -- A round on machines that are ready has one of two outcomes. If the host owes its vCPUs more
  -- than it has, no quota and no control group is changed. Otherwise every vCPU gets at least what
  -- it is guaranteed and at most a second, and its quota is set to what it got.
  pub run-Applied :
      (vms us : List (Vm F))
      → nprocs ≤ 2147
      → max_cycles * nb_of vms < half_word
      → AreReady cfg vms
      → run nprocs cfg vms ≡ some us
      → (capacity nprocs < owed cfg vms) × Each (Within Untouched) vms us
        ⊎ (owed cfg vms ≤ capacity nprocs) × Each (Within (Applied cfg)) vms us
  run-Applied [] us np small r e =
      inr
        (omega arith, subst (Each (Within (Applied cfg)) []) (some-injective _ _ (run-nil ∙ e)) tt)
  run-Applied (v ∷ vs) us np small r e =
      let vms = v ∷ vs in
      elim (sell_vms-market cfg (capacity nprocs % word) vms r (omega arith) small) [
        | inl (over, neg) ↦ inl (
          omega arith,
          subst (Each (Within Untouched) vms) (some-injective _ _ (sym (run-over v vs neg) ∙ e))
              (sell_vms-Untouched cfg 0 (capacity nprocs % word) 0 vms),
        )
        | inr (left, fits) ↦ inr (
          omega arith,
          let s = sold vms in
              let (sound, backed, _) =
                auction-Backed cfg (capacity nprocs % word) vms r (omega arith) fits in
              finish-Applied vms (auction cfg s) s.nb_vcpus us sound backed
                (sym (run-fits v vs fits) ∙ e),
        )
      ]

  -- If some vCPU is controlled and the machines are ready, a round has a result: it does not divide
  -- by zero.
  pub run_total :
      (vms : List (Vm F))
      → 0 < nb_of vms
      → AreReady cfg vms
      → (us : List (Vm F)) × (run nprocs cfg vms ≡ some us)
  run_total [] some_vcpu r = absurd (omega arith)
  run_total (v ∷ vs) some_vcpu r =
      let s = sold (v ∷ vs) in
      let (_, _, count) = sell_vms_lem cfg 0 (capacity nprocs % word) 0 (v ∷ vs) r (omega arith) in
      elim (Bool-cases (is_negative s.market)) [
        | inl neg ↦ (s.vms, run-over v vs neg)
        | inr fits ↦
            let (ws, ew) =
              share_rest-some s.nb_vcpus (share_failed (auction cfg s)) (omega arith) in
            (map (apply_market_allocation 100_000) ws, run-fits v vs fits ∙ ap finish ew)
      ]

  sell_vms-no_buyers :
      (i market nb : ℕ) (vms : List (Vm F))
      → nb_of vms ≡ 0
      → (sell_vms cfg i market nb vms).buyers ≡ []
  unfolding sell_vms sell_vcpus
  sell_vms-no_buyers i market nb [] z = refl
  sell_vms-no_buyers i market nb (v ∷ vs) z =
      let none_here : v.vcpus ≡ [] = ground arith in
      let s = sell_vcpus cfg i 0 v.money market nb v.vcpus in
      let here : s.buyers ≡ [] =
        subst (λ cs. (sell_vcpus cfg i 0 v.money market nb cs).buyers ≡ []) (sym none_here) refl in
      rw (here, sell_vms-no_buyers (i + 1) s.market s.nb_vcpus vs (omega arith))

  auction-no_buyers : (s : SoldVms F) → s.buyers ≡ [] → auction cfg s ≡ opening s
  unfolding auction
  auction-no_buyers s e =
      ap (λ ps. (buy_cycles (suc s.market) cfg ps (opening s)).0) e
      ∙ ap (λ r. r.0) (buy_cycles-nil (suc s.market) cfg (opening s))

  share_rest-zero :
      (nb : ℕ) (a : Auction F)
      → a.fails ≡ []
      → is_positive a.market ≡ true
      → nb ≡ 0
      → share_rest nb (share_failed a) ≡ none
  unfolding share_rest share_failed distribute
  share_rest-zero nb a none_failed positive z = ground arith

  -- If there are machines on a host with processors, but none has a vCPU, a round divides by zero.
  pub run_divides_by_zero :
      (v : Vm F) (vs : List (Vm F))
      → 0 < nprocs
      → nprocs ≤ 2147
      → nb_of (v ∷ vs) ≡ 0
      → AreReady cfg (v ∷ vs)
      → run nprocs cfg (v ∷ vs) ≡ none
  run_divides_by_zero v vs np bound zero_vcpus r =
      let cap = capacity nprocs % word in
      let s = sold (v ∷ vs) in
      let (all, balance, count) = sell_vms_lem cfg 0 cap 0 (v ∷ vs) r (omega arith) in
      let (_, total) = total-Prepared cfg (v ∷ vs) s.vms all in
      let full : s.market ≡ cap = omega arith in
      run-fits v vs (ground (arith, full))
      ∙ ap (λ a. finish (share_rest s.nb_vcpus (share_failed a))) {y = opening s}
          (auction-no_buyers s (sell_vms-no_buyers 0 cap 0 (v ∷ vs) zero_vcpus))
      ∙ ap finish (share_rest-zero s.nb_vcpus (opening s) refl (ground (arith, full)) (omega arith))
