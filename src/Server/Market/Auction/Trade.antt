-- ===== src/Server/Market/Auction/Trade.antt =====
-- What the auction keeps: machines pay for what their vCPUs get, wishes turn into allocations, and
-- the cycles come out of the market.
use cgroup_monitor.Prelude.{
  ℕ, ◌+◌, ◌-◌, ◌≤◌, ◌<◌, ◌≡◌, refl, ◌⊎◌, inl, inr, Bool, false, some, List, [], ◌∷◌, arith,
  get_elem?, Each, Each-refl, Each-trans, Each-modify, All, All-Each, All-get_elem?, sum_by,
  sum_by-modify, Option-cases, Bool-cases, ◌==◌,
}
use cgroup_monitor.Prelude.Words.{word, half_word, sub64}
use cgroup_monitor.Floats.{Floats}
use cgroup_monitor.Libvirt.Vcpu.{Vcpu}
use cgroup_monitor.Libvirt.Vm.{Vm}
use cgroup_monitor.Server.Market.Sale.{Config, Ptr}
use cgroup_monitor.Server.Market.Sale.Base.{cycles_of}
use cgroup_monitor.Server.Market.Auction.{
  Auction, seat, receive, purchase_in, purchase, affordable, bid_for, bid, bid_pass,
}

module _ {F : Floats} where
  -- A vCPU after it received cycles that it wanted.
  abbrev pub Served : Vcpu F → Vcpu F → Type 0
  Served c d = (c.allocated ≤ d.allocated) × (d.allocated + d.buying ≡ c.allocated + c.buying)

  abbrev pub total_cycles : List (Vm F) → ℕ
  total_cycles = sum_by cycles_of

  -- A machine that paid for what its vCPUs received.
  abbrev pub Paid : Vm F → Vm F → Type 0
  Paid v w = Each Served v.vcpus w.vcpus × (w.money + cycles_of w ≡ v.money + cycles_of v)

  -- No sum of the auction can wrap.
  abbrev pub IsSmall : Vcpu F → Type 0
  IsSmall c = c.allocated + c.buying < word

  abbrev pub AreSmall : List (Vm F) → Type 0
  AreSmall = All (λ vm. (vm.money < word) × All IsSmall vm.vcpus)

  pub Served-refl : (c : Vcpu F) → Served c c
  Served-refl c = omega arith

  pub Served-trans : (c d e : Vcpu F) → Served c d → Served d e → Served c e
  Served-trans c d e p q = omega arith

  Paid-refl : (v : Vm F) → Paid v v
  Paid-refl v = (Each-refl Served Served-refl v.vcpus, refl)

  Paid-trans : (u v w : Vm F) → Paid u v → Paid v w → Paid u w
  Paid-trans u v w p q =
      (Each-trans Served Served-trans u.vcpus v.vcpus w.vcpus p.0 q.0, omega arith)

  pub seat-inv :
      (i j : ℕ) (vms : List (Vm F)) (m : ℕ) (c : Vcpu F)
      → seat (i, j) vms ≡ some (m, c)
      → (vm : Vm F) × (get_elem? vms i ≡ some vm) × (get_elem? vm.vcpus j ≡ some c) × (vm.money ≡ m)
  unfolding seat
  seat-inv i j vms m c e = elim (Option-cases (get_elem? vms i)) [
    | inl gone ↦ absurd (ground (arith, gone))
    | inr (vm, ev) ↦ elim (Option-cases (get_elem? vm.vcpus j)) [
      | inl gone ↦ absurd (ground (arith, ev, gone))
      | inr (d, ed) ↦ (vm, ev, ground (arith, ev, ed), ground (arith, ev, ed))
    ]
  ]

  pub receive-Served : (n : ℕ) (c : Vcpu F) → IsSmall c → n ≤ c.buying → Served c (receive n c)
  receive-Served n c s b = omega arith

  module _ (n i j : ℕ) (vms : List (Vm F)) (m : ℕ) (c : Vcpu F) (small : AreSmall vms)
      (at : seat (i, j) vms ≡ some (m, c)) (wanted : n ≤ c.buying) where
    -- A purchase that the machine can pay and the vCPU wants.
    pub purchase-Paid :
        n ≤ m
        → Each Paid vms (purchase n (i, j) vms)
          × (total_cycles (purchase n (i, j) vms) ≡ total_cycles vms + n)
    unfolding purchase
    purchase-Paid payable =
        let (vm, ev, ec, em) = seat-inv i j vms m c at in
        let (rich, tame) = All-get_elem? _ vms i vm small ev in
        let calm = All-get_elem? IsSmall vm.vcpus j c tame ec in
        let more : cycles_of (purchase_in n j vm) ≡ cycles_of vm + n =
          sum_by-modify (λ d. d.allocated) (receive n) vm.vcpus j c n ec (omega arith) in
        let paid : Paid vm (purchase_in n j vm) = (
          Each-modify Served Served-refl vm.vcpus j (receive n) c ec
              (receive-Served n c calm wanted),
          omega arith,
        ) in
        (
          Each-modify Paid Paid-refl vms i (purchase_in n j) vm ev paid,
          sum_by-modify cycles_of (purchase_in n j) vms i vm n ev more,
        )

module _ {F : Floats} where
  pub sum_by-Served :
      (cs ds : List (Vcpu F))
      → Each Served cs ds
      → sum_by (λ c. c.allocated) cs ≤ sum_by (λ c. c.allocated) ds
  sum_by-Served [] [] e = omega arith
  sum_by-Served [] (d ∷ ds) e = absurd e
  sum_by-Served (c ∷ cs) [] e = absurd e
  sum_by-Served (c ∷ cs) (d ∷ ds) (e, es) = omega (arith, sum_by-Served cs ds es)

  IsSmall-Paid :
      (v w : Vm F)
      → (v.money < word) × All IsSmall v.vcpus
      → Paid v w
      → (w.money < word) × All IsSmall w.vcpus
  IsSmall-Paid v w (rich, tame) (served, balance) = (
    omega (arith, sum_by-Served v.vcpus w.vcpus served),
    All-Each Served IsSmall IsSmall (λ c d s r. omega arith) v.vcpus w.vcpus tame served,
  )

  pub AreSmall-Paid : (vs ws : List (Vm F)) → AreSmall vs → Each Paid vs ws → AreSmall ws
  AreSmall-Paid = All-Each Paid _ _ IsSmall-Paid

  -- What any part of the auction does to its state.
  pub record Trades (a b : Auction F) : Type 0 where
    pub paid : Each Paid a.vms b.vms
    pub sold : b.market + total_cycles b.vms ≡ a.market + total_cycles a.vms
    pub fell : b.market ≤ a.market

  pub record IsSound (a : Auction F) : Type 0 where
    pub small : AreSmall a.vms
    pub fits : a.market < half_word

  pub IsSound-Trades : (a b : Auction F) → IsSound a → Trades a b → IsSound b
  IsSound-Trades a b s t = record {
    small = AreSmall-Paid a.vms b.vms s.small t.paid;
    fits = omega arith;
  }

  pub Trades-refl : (a : Auction F) → Trades a a
  Trades-refl a = record { paid = Each-refl Paid Paid-refl a.vms; sold = refl; fell = omega arith }

  pub Trades-trans : (a b c : Auction F) → Trades a b → Trades b c → Trades a c
  Trades-trans a b c p q = record {
    paid = Each-trans Paid Paid-trans a.vms b.vms c.vms p.paid q.paid;
    sold = omega arith;
    fell = omega arith;
  }

  -- A bid trades, and a buyer that stays took something out of the market.
  abbrev pub Bids : Auction F → Auction F × Bool → Type 0
  Bids a r = Trades a r.0 × ((r.1 ≡ false) ⊎ (r.0.market < a.market))

  bid_for-Bids :
      (cfg : Config F) (p : Ptr) (a : Auction F) (m : ℕ) (c : Vcpu F)
      → IsSound a
      → seat p a.vms ≡ some (m, c)
      → Bids a (bid_for cfg p a (m, c))
  bid_for-Bids cfg (i, j) a m c s at = elim (Bool-cases (c.buying == 0)) [
    | inl none_wanted ↦ rw none_wanted (Trades-refl a, inl refl)
    | inr wants ↦ elim (Bool-cases (affordable cfg m c a.market == 0)) [
      | inl nothing ↦
          rw (wants, nothing)
            (
              record { paid = Each-refl Paid Paid-refl a.vms; sold = refl; fell = omega arith },
              inl refl,
            )
      | inr some_bought ↦
          let n = affordable cfg m c a.market in
          let (paid, more) = purchase-Paid n i j a.vms m c s.small at (omega arith) (omega arith) in
          let fits = s.fits in
          let positive : 0 < n = ground arith in
          let left : sub64 a.market n ≡ a.market - n = omega arith in
          rw (wants, some_bought, left)
            (record { paid = paid; sold = omega arith; fell = omega arith }, inr (omega arith))
    ]
  ]

  pub bid-Bids : (cfg : Config F) (p : Ptr) (a : Auction F) → IsSound a → Bids a (bid cfg p a)
  unfolding bid
  bid-Bids cfg p a s = elim (Option-cases (seat p a.vms)) [
    | inl gone ↦ rw (gone, bid) (Trades-refl a, inl refl)
    | inr ((m, c), at) ↦ rw (at, bid) (bid_for-Bids cfg p a m c s at)
  ]

  -- A pass trades, and unless no buyer stays it took something out of the market.
  pub bid_pass-Trades :
      (cfg : Config F) (ps : List Ptr) (a : Auction F)
      → IsSound a
      → let (b, kept) = bid_pass cfg ps a in Trades a b × ((kept ≡ []) ⊎ (b.market < a.market))
  unfolding bid_pass
  bid_pass-Trades cfg [] a s = (Trades-refl a, inl refl)
  bid_pass-Trades cfg (p ∷ ps) a s =
      let (one, less) = bid-Bids cfg p a s in
      let m = (bid cfg p a).0 in
      let (rest, fewer) = bid_pass-Trades cfg ps m (IsSound-Trades a m s one) in
      let b = (bid_pass cfg ps m).0 in
      (Trades-trans a m b one rest, ground (arith, less, fewer, one.fell, rest.fell))
