-- ===== src/Server/Market/Round/Steady.antt =====
-- What a round of the market leaves alone: the relation, the sale and the auction.
use cgroup_monitor.Prelude.{
  ℕ, zero, suc, ◌+◌, ◌≡◌, ◌∙◌, ◌<◌, refl, inl, inr, Bool, true, false, not, ◌&&◌, List, [], ◌∷◌,
  arith, Each, Each-refl, Each-trans, Each-modify, Bool-cases, Option-cases, get_elem?, modify,
  ◌==◌, ltb, if◌then◌else◌, modify-none,
}
use cgroup_monitor.Prelude.Words.{word, is_positive}
use cgroup_monitor.Floats.{Floats}
use cgroup_monitor.Libvirt.Vcpu.{Vcpu}
use cgroup_monitor.Libvirt.Vm.{Vm}
use cgroup_monitor.Server.Market.Sale.{
  Config, Ptr, Sale, usage, is_stable, sell_base, deal, sell_vcpus, sell_vms,
}
use cgroup_monitor.Server.Market.Auction.{
  Auction, buy_cycles, bid_pass, bid, bid_for, affordable, purchase, purchase_in, grant, grant_in,
  receive, seat, is_empty,
}

module _ {F : Floats} where
  open F use {flt}

  -- All that a round leaves in a vCPU, but for the three counters that `KeepsReadings` names.
  abbrev pub kept_of :
      Vcpu F → ℕ × ℕ × ℕ × ℕ × ℕ × ℕ × ℕ × F.Float × F.Float × F.Float × List F.Float × F.Double
  kept_of c = (
    c.id, c.max_history, c.sum_frequency, c.last_frequency, c.micro_consumption,
    c.last_micro_consumption, c.consumption, c.micro_delta, c.sum_delta, c.delta, c.history,
    c.slope,
  )

  -- A vCPU with the readings that it had.
  abbrev pub KeepsReadings : Vcpu F → Vcpu F → Type 0
  KeepsReadings c d =
      (d.nominal_freq ≡ c.nominal_freq)
      × (d.sum_consumption ≡ c.sum_consumption)
      × (d.nb_micros ≡ c.nb_micros)
      × (kept_of d ≡ kept_of c)

  pub KeepsReadings-refl : (c : Vcpu F) → KeepsReadings c c
  KeepsReadings-refl c = (refl, refl, refl, refl)

  KeepsReadings-trans : (c d e : Vcpu F) → KeepsReadings c d → KeepsReadings d e → KeepsReadings c e
  KeepsReadings-trans c d e (n, s, k, r) (n', s', k', r') = (n' ∙ n, s' ∙ s, k' ∙ k, r' ∙ r)

  abbrev pub Steady : Vm F → Vm F → Type 0
  Steady v w =
      Each KeepsReadings v.vcpus w.vcpus × (v.money < word → w.money < word) × (w.id ≡ v.id)

  Steady-refl : (v : Vm F) → Steady v v
  Steady-refl v = (Each-refl KeepsReadings KeepsReadings-refl v.vcpus, λ m. m, refl)

  Steady-trans : (u v w : Vm F) → Steady u v → Steady v w → Steady u w
  Steady-trans u v w p q = (
    Each-trans KeepsReadings KeepsReadings-trans u.vcpus v.vcpus w.vcpus p.0 q.0,
    λ m. q.1 (p.1 m),
    q.2 ∙ p.2,
  )

  abbrev pub AllSteady : List (Vm F) → List (Vm F) → Type 0
  AllSteady = Each Steady

  pub AllSteady-refl : (vms : List (Vm F)) → AllSteady vms vms
  AllSteady-refl = Each-refl Steady Steady-refl

  pub AllSteady-trans :
      (us vs ws : List (Vm F)) → AllSteady us vs → AllSteady vs ws → AllSteady us ws
  AllSteady-trans = Each-trans Steady Steady-trans

  abbrev SaleKeeps : Vcpu F → ℕ → Sale F → Type 0
  SaleKeeps v money s = KeepsReadings v s.vcpu × (money < word → s.money < word)

  deal-SaleKeeps :
      (v : Vcpu F) (current wanted nominal money market : ℕ)
      → SaleKeeps v money (deal v current wanted nominal money market)
  unfolding deal
  deal-SaleKeeps v current wanted nominal money market = elim (Bool-cases (ltb nominal wanted)) [
    | inl more ↦ rw (more) ((refl, refl, refl, refl), λ m. m)
    | inr enough ↦ rw (enough) ((refl, refl, refl, refl), λ m. omega arith)
  ]

  pick-SaleKeeps :
      (v : Vcpu F) (money : ℕ) (b : Bool) (s t : Sale F)
      → SaleKeeps v money s
      → SaleKeeps v money t
      → SaleKeeps v money (if b then s else t)
  pick-SaleKeeps v money true s t p q = p
  pick-SaleKeeps v money false s t p q = q

  sell_base-SaleKeeps :
      (cfg : Config F) (v : Vcpu F) (money market : ℕ)
      → SaleKeeps v money (sell_base cfg v money market)
  unfolding sell_base
  sell_base-SaleKeeps cfg v money market =
      pick-SaleKeeps v money (is_stable v) _ _ (deal-SaleKeeps v _ _ _ money market) (
        pick-SaleKeeps v money (flt (usage v) cfg.trigger_decrement) _ _
          (deal-SaleKeeps v _ _ _ money market)
          (pick-SaleKeeps v money (flt cfg.trigger_increment (usage v)) _ _
            (deal-SaleKeeps v _ _ _ money market) (deal-SaleKeeps v _ _ _ money market)))

  modify-Steady :
      (f : Vm F → Vm F) (vms : List (Vm F)) (i : ℕ)
      → ((v : Vm F) → Steady v (f v))
      → AllSteady vms (modify vms i f)
  modify-Steady f vms i h = elim (Option-cases (get_elem? vms i)) [
    | inl gone ↦ rw (modify-none vms i f gone) (AllSteady-refl vms)
    | inr (v, e) ↦ Each-modify Steady Steady-refl vms i f v e (h v)
  ]

  modify-KeepsReadings :
      (f : Vcpu F → Vcpu F) (cs : List (Vcpu F)) (j : ℕ)
      → ((c : Vcpu F) → KeepsReadings c (f c))
      → Each KeepsReadings cs (modify cs j f)
  modify-KeepsReadings f cs j h = elim (Option-cases (get_elem? cs j)) [
    | inl gone ↦ rw (modify-none cs j f gone) (Each-refl KeepsReadings KeepsReadings-refl cs)
    | inr (c, e) ↦ Each-modify KeepsReadings KeepsReadings-refl cs j f c e (h c)
  ]

  purchase-AllSteady : (n : ℕ) (p : Ptr) (vms : List (Vm F)) → AllSteady vms (purchase n p vms)
  unfolding purchase
  purchase-AllSteady n (i, j) vms = modify-Steady (purchase_in n j) vms i λ v. (
    modify-KeepsReadings (receive n) v.vcpus j (λ c. (refl, refl, refl, refl)),
    λ m. omega arith,
    refl,
  )

  pub grant-AllSteady : (n : ℕ) (p : Ptr) (vms : List (Vm F)) → AllSteady vms (grant n p vms)
  unfolding grant
  grant-AllSteady n (i, j) vms = modify-Steady (grant_in n j) vms i λ v.
      (modify-KeepsReadings (receive n) v.vcpus j (λ c. (refl, refl, refl, refl)), λ m. m, refl)

  sell_vcpus-Steady :
      (cfg : Config F) (i j money market nb : ℕ) (cs : List (Vcpu F))
      → let s = sell_vcpus cfg i j money market nb cs in
        Each KeepsReadings cs s.vcpus × (money < word → s.money < word)
  unfolding sell_vcpus
  sell_vcpus-Steady cfg i j money market nb [] = (tt, λ m. m)
  sell_vcpus-Steady cfg i j money market nb (c ∷ cs) =
      let s = sell_base cfg c money market in
      let (kept, rich) = sell_base-SaleKeeps cfg c money market in
      let (rest, richer) = sell_vcpus-Steady cfg i (j + 1) s.money s.market (nb + 1) cs in
      ((kept, rest), λ m. richer (rich m))

  pub sell_vms-AllSteady :
      (cfg : Config F) (i market nb : ℕ) (vms : List (Vm F))
      → AllSteady vms (sell_vms cfg i market nb vms).vms
  unfolding sell_vms
  sell_vms-AllSteady cfg i market nb [] = tt
  sell_vms-AllSteady cfg i market nb (v ∷ vs) =
      let s = sell_vcpus cfg i 0 v.money market nb v.vcpus in
      let (kept, rich) = sell_vcpus-Steady cfg i 0 v.money market nb v.vcpus in
      ((kept, rich, refl), sell_vms-AllSteady cfg (i + 1) s.market s.nb_vcpus vs)

  -- What an auction may come to.
  abbrev pub GoesOn : Auction F → Auction F → Type 0
  GoesOn a b = AllSteady a.vms b.vms

  bid_for-GoesOn :
      (cfg : Config F) (p : Ptr) (a : Auction F) (money : ℕ) (c : Vcpu F)
      → GoesOn a (bid_for cfg p a (money, c)).0
  bid_for-GoesOn cfg p a money c = elim (Bool-cases (c.buying == 0)) [
    | inl no_wish ↦ rw (no_wish) (AllSteady-refl a.vms)
    | inr wish ↦ elim (Bool-cases (affordable cfg money c a.market == 0)) [
      | inl failed ↦ rw (wish, failed) (AllSteady-refl a.vms)
      | inr buys ↦ rw (wish, buys) (purchase-AllSteady (affordable cfg money c a.market) p a.vms)
    ]
  ]

  bid-GoesOn : (cfg : Config F) (p : Ptr) (a : Auction F) → GoesOn a (bid cfg p a).0
  unfolding bid
  bid-GoesOn cfg p a = elim (Option-cases (seat p a.vms)) [
    | inl gone ↦ rw (gone, bid) (AllSteady-refl a.vms)
    | inr ((money, c), found) ↦ rw (found, bid) (bid_for-GoesOn cfg p a money c)
  ]

  bid_pass-GoesOn :
      (cfg : Config F) (ps : List Ptr) (a : Auction F) → GoesOn a (bid_pass cfg ps a).0
  unfolding bid_pass
  bid_pass-GoesOn cfg [] a = AllSteady-refl a.vms
  bid_pass-GoesOn cfg (p ∷ ps) a =
      let b = (bid cfg p a).0 in
      AllSteady-trans a.vms b.vms _ (bid-GoesOn cfg p a) (bid_pass-GoesOn cfg ps b)

  pub buy_cycles-GoesOn :
      (fuel : ℕ) (cfg : Config F) (ps : List Ptr) (a : Auction F)
      → GoesOn a (buy_cycles fuel cfg ps a).0
  unfolding buy_cycles
  buy_cycles-GoesOn zero cfg ps a = AllSteady-refl a.vms
  buy_cycles-GoesOn (suc fuel) cfg ps a =
      elim (Bool-cases (is_positive a.market && not (is_empty ps))) [
        | inl more ↦
            let b = (bid_pass cfg ps a).0 in
            rw (more) (
              AllSteady-trans a.vms b.vms _ (bid_pass-GoesOn cfg ps a)
                (buy_cycles-GoesOn fuel cfg (bid_pass cfg ps a).1 b))
        | inr stop ↦ rw (stop) (AllSteady-refl a.vms)
      ]
