-- ===== src/Server/Market/Auction/Finish.antt =====
-- The end of the auction: the loop of `buyCycles` stops, and everyone is served or out of money.
use cgroup_monitor.Prelude.{
  ℕ, zero, suc, ◌+◌, ◌≤◌, ◌<◌, ◌≡◌, refl, sym, subst, ◌⊎◌, inl, inr, true, false, Option, none,
  some, List, [], ◌∷◌, arith, Each, get_elem?-Each, All, Option-cases, Bool-cases, ◌==◌, min, not,
  ◌&&◌,
}
use cgroup_monitor.Prelude.Words.{is_positive}
use cgroup_monitor.Floats.{Floats}
use cgroup_monitor.Libvirt.Vcpu.{Vcpu}
use cgroup_monitor.Libvirt.Vm.{Vm}
use cgroup_monitor.Server.Market.Sale.{Config, Ptr}
use cgroup_monitor.Server.Market.Auction.{
  Auction, seat, seat_in, with_money, affordable, bid, bid_pass, buy_cycles, is_empty,
}
use cgroup_monitor.Server.Market.Auction.Trade.{
  Served, Paid, Trades, IsSound, IsSound-Trades, Trades-refl, Trades-trans, bid_pass-Trades,
  bid-Bids, sum_by-Served, total_cycles,
}

module _ {F : Floats} where
  pub buy_cycles-Trades_lem :
      (fuel : ℕ) (cfg : Config F) (ps : List Ptr) (a : Auction F)
      → IsSound a
      → Trades a (buy_cycles fuel cfg ps a).0
  unfolding buy_cycles
  buy_cycles-Trades_lem zero cfg ps a s = Trades-refl a
  buy_cycles-Trades_lem (suc fuel) cfg ps a s =
      let one = (bid_pass-Trades cfg ps a s).0 in
      let (b, kept) = bid_pass cfg ps a in
      let rest = buy_cycles-Trades_lem fuel cfg kept b (IsSound-Trades a b s one) in
      elim (Bool-cases (is_positive a.market && not (is_empty ps))) [
        | inl go ↦ rw go (Trades-trans a b (buy_cycles fuel cfg kept b).0 one rest)
        | inr stop ↦ rw stop (Trades-refl a)
      ]

  -- The auction moves cycles and money and makes none: with sums that fit their machine words, every
  -- machine loses exactly the money that its vCPUs gain in cycles, no vCPU loses cycles, each
  -- vCPU's allocation and remaining wish keep their sum, and what all vCPUs gain has left the
  -- market.
  pub buy_cycles-Trades :
      (fuel : ℕ) (cfg : Config F) (ps : List Ptr) (a : Auction F)
      → IsSound a
      → let b = (buy_cycles fuel cfg ps a).0 in
        Each Paid a.vms b.vms
        × (b.market + total_cycles b.vms ≡ a.market + total_cycles a.vms)
        × (b.market ≤ a.market)
  buy_cycles-Trades fuel cfg ps a s =
      let t = buy_cycles-Trades_lem fuel cfg ps a s in (t.paid, t.sold, t.fell)

  pub buy_cycles-nil :
      (fuel : ℕ) (cfg : Config F) (a : Auction F) → buy_cycles fuel cfg [] a ≡ (a, [])
  unfolding buy_cycles
  buy_cycles-nil zero cfg a = refl
  buy_cycles-nil (suc fuel) cfg a = ground arith

  -- The loop ends: with more rounds of fuel than there are cycles in the market, the auction stops
  -- because the market is empty or no buyer is left, and not for lack of fuel.
  pub buy_cycles-stops :
      (fuel : ℕ) (cfg : Config F) (ps : List Ptr) (a : Auction F)
      → IsSound a
      → a.market < fuel
      → let (b, kept) = buy_cycles fuel cfg ps a in (b.market ≡ 0) ⊎ (kept ≡ [])
  unfolding buy_cycles
  buy_cycles-stops zero cfg ps a s h = elim h [ ]
  buy_cycles-stops (suc fuel) cfg [] a s h = ground arith
  buy_cycles-stops (suc fuel) cfg (p ∷ ps) a s h =
      let (one, fewer) = bid_pass-Trades cfg (p ∷ ps) a s in
      let (b, kept) = bid_pass cfg (p ∷ ps) a in
      let fits = s.fits in
      elim (Bool-cases (is_positive a.market)) [
        | inl go ↦ rw go (elim fewer [
          | inl none_left ↦ rw (none_left, buy_cycles-nil fuel cfg b) (inr refl)
          | inr less ↦ buy_cycles-stops fuel cfg kept b (IsSound-Trades a b s one) (omega arith)
        ])
        | inr stop ↦ rw stop (inl (ground arith))
      ]

  -- Whom the auction need not serve any more: wants nothing, or cannot buy.
  abbrev pub SettledSeat : Config F → ℕ → Option (ℕ × Vcpu F) → Type 0
  SettledSeat cfg market none = Unit
  SettledSeat cfg market (some (m, c)) = (c.buying ≡ 0) ⊎ (min (min cfg.window_size m) market ≡ 0)

  abbrev pub Settled : Config F → Auction F → Ptr → Type 0
  Settled cfg a p = SettledSeat cfg a.market (seat p a.vms)

  -- Money and wishes only fall, so who is settled stays so.
  abbrev SeatPaid : Option (ℕ × Vcpu F) → Option (ℕ × Vcpu F) → Type 0
  SeatPaid none none = Unit
  SeatPaid none (some t) = ⊥
  SeatPaid (some s) none = ⊥
  SeatPaid (some (m, c)) (some (n, d)) = (n ≤ m) × (d.buying ≤ c.buying)

  seat-Paid : (p : Ptr) (vs ws : List (Vm F)) → Each Paid vs ws → SeatPaid (seat p vs) (seat p ws)
  unfolding seat
  seat-Paid (i, j) vs ws e =
      get_elem?-Each Paid (λ v w. SeatPaid (seat_in j v) (seat_in j w)) tt
        (λ v w q.
          get_elem?-Each Served (λ c d. SeatPaid (with_money v.money c) (with_money w.money d)) tt
            (λ c d r. (omega (arith, sum_by-Served v.vcpus w.vcpus q.0), omega arith)) v.vcpus
            w.vcpus j q.0)
        vs ws i e

  SettledSeat-SeatPaid :
      (cfg : Config F) (m n : ℕ) (s t : Option (ℕ × Vcpu F))
      → n ≤ m
      → SeatPaid s t
      → SettledSeat cfg m s
      → SettledSeat cfg n t
  SettledSeat-SeatPaid cfg m n none none le q h = tt
  SettledSeat-SeatPaid cfg m n none (some t) le q h = absurd q
  SettledSeat-SeatPaid cfg m n (some s) none le q h = absurd q
  SettledSeat-SeatPaid cfg m n (some (x, c)) (some (y, d)) le (q, r) (inl h) = inl (omega arith)
  SettledSeat-SeatPaid cfg m n (some (x, c)) (some (y, d)) le (q, r) (inr h) = inr (omega arith)

  Settled-Trades :
      (cfg : Config F) (a b : Auction F) (p : Ptr) → Trades a b → Settled cfg a p → Settled cfg b p
  Settled-Trades cfg a b p t h =
      SettledSeat-SeatPaid cfg a.market b.market (seat p a.vms) (seat p b.vms) t.fell
        (seat-Paid p a.vms b.vms t.paid) h

  -- Who leaves the list of buyers is settled.
  bid-Settled :
      (cfg : Config F) (p : Ptr) (a : Auction F)
      → (bid cfg p a).1 ≡ false
      → Settled cfg (bid cfg p a).0 p
  unfolding bid
  bid-Settled cfg p a out = elim (Option-cases (seat p a.vms)) [
    | inl gone ↦ rw (gone, bid, gone) tt
    | inr ((m, c), at) ↦ elim (Bool-cases (c.buying == 0)) [
      | inl served ↦ rw (at, bid, served, at) (inl (ground arith))
      | inr wants ↦ elim (Bool-cases (affordable cfg m c a.market == 0)) [
        | inl nothing ↦ rw (at, bid, wants, nothing, at) (inr (ground arith))
        | inr bought ↦ absurd (ground (arith, at))
      ]
    ]
  ]

  bid_pass-Settled :
      (cfg : Config F) (ps : List Ptr) (a c : Auction F)
      → IsSound a
      → Trades (bid_pass cfg ps a).0 c
      → All (Settled cfg c) (bid_pass cfg ps a).1
      → All (Settled cfg c) ps
  unfolding bid_pass
  bid_pass-Settled cfg [] a c s t h = tt
  bid_pass-Settled cfg (p ∷ ps) a c s t h =
      let m = (bid cfg p a).0 in
      let sm = IsSound-Trades a m s (bid-Bids cfg p a s).0 in
      let rest = (bid_pass-Trades cfg ps m sm).0 in
      elim (Bool-cases (bid cfg p a).1) [
        | inl stays ↦
            let h' : All (Settled cfg c) (p ∷ (bid_pass cfg ps m).1) = rw stays at h in
            (h'.0, bid_pass-Settled cfg ps m c sm t h'.1)
        | inr leaves ↦
            let h' : All (Settled cfg c) (bid_pass cfg ps m).1 = rw leaves at h in
            (
              Settled-Trades cfg m c p (Trades-trans m (bid_pass cfg ps m).0 c rest t)
                  (bid-Settled cfg p a leaves),
              bid_pass-Settled cfg ps m c sm t h',
            )
      ]

  sold_out-Settled :
      (cfg : Config F) (a : Auction F) (ps : List Ptr) → a.market ≡ 0 → All (Settled cfg a) ps
  sold_out-Settled cfg a [] z = tt
  sold_out-Settled cfg a (p ∷ ps) z = (sold_out_seat (seat p a.vms), sold_out-Settled cfg a ps z)
    where
      sold_out_seat : (s : Option (ℕ × Vcpu F)) → SettledSeat cfg a.market s
      sold_out_seat none = tt
      sold_out_seat (some (m, c)) = inr (omega arith)

  module _ (fuel : ℕ) (cfg : Config F) (p : Ptr) (ps : List Ptr) (a : Auction F) where
    buy_cycles-go :
        is_positive a.market ≡ true
        → buy_cycles (suc fuel) cfg (p ∷ ps) a
          ≡ buy_cycles fuel cfg (bid_pass cfg (p ∷ ps) a).1 (bid_pass cfg (p ∷ ps) a).0
    unfolding buy_cycles
    buy_cycles-go go = rw go

    buy_cycles-stop :
        is_positive a.market ≡ false → buy_cycles (suc fuel) cfg (p ∷ ps) a ≡ (a, p ∷ ps)
    unfolding buy_cycles
    buy_cycles-stop stop = rw stop

  -- The auction clears: with enough fuel, every vCPU that took part in the end wants nothing more,
  -- or cannot buy, because its machine has no money, the window is zero or the market is empty.
  pub buy_cycles-Settled :
      (fuel : ℕ) (cfg : Config F) (ps : List Ptr) (a : Auction F)
      → IsSound a
      → a.market < fuel
      → All (Settled cfg (buy_cycles fuel cfg ps a).0) ps
  buy_cycles-Settled zero cfg ps a s h = elim h [ ]
  buy_cycles-Settled (suc fuel) cfg [] a s h = tt
  buy_cycles-Settled (suc fuel) cfg (p ∷ ps) a s h =
      let (one, fewer) = bid_pass-Trades cfg (p ∷ ps) a s in
      let (b, kept) = bid_pass cfg (p ∷ ps) a in
      let sb = IsSound-Trades a b s one in
      let c = (buy_cycles fuel cfg kept b).0 in
      let fits = s.fits in
      elim (Bool-cases (is_positive a.market)) [
        | inl go ↦
            let later : All (Settled cfg c) kept = elim fewer [
              | inl none_left ↦ rw none_left tt
              | inr less ↦ buy_cycles-Settled fuel cfg kept b sb (omega arith)
            ] in
            subst (λ r. All (Settled cfg r.0) (p ∷ ps)) (sym (buy_cycles-go fuel cfg p ps a go))
              (bid_pass-Settled cfg (p ∷ ps) a c s (buy_cycles-Trades_lem fuel cfg kept b sb) later)
        | inr stop ↦
            subst (λ r. All (Settled cfg r.0) (p ∷ ps)) (sym (buy_cycles-stop fuel cfg p ps a stop))
              (sold_out-Settled cfg a (p ∷ ps) (ground arith))
      ]
