-- ===== src/Server/Market/Round/Share.antt =====
-- The shares of what the auction leaves.
use cgroup_monitor.Prelude.{
  ℕ, ◌+◌, ◌%◌, ◌≤◌, ◌<◌, ◌≡◌, refl, inl, inr, some, List, [], ◌∷◌, map, arith, min, All, All-Each,
  Each, Each-refl, Each-trans, Each-modify, All-get_elem?, sum_by, sum_by-modify, Option-cases,
  Bool-cases, length, ◌*◌,
}
use cgroup_monitor.Prelude.Words.{word, half_word, sub64, is_positive}
use cgroup_monitor.Floats.{Floats}
use cgroup_monitor.Libvirt.Vcpu.{Vcpu}
use cgroup_monitor.Libvirt.Vm.{Vm}
use cgroup_monitor.Server.Market.Sale.{Ptr}
use cgroup_monitor.Server.Market.Sale.Base.{cycles_of, cycles}
use cgroup_monitor.Server.Market.Auction.{Auction, seat, grant, grant_in, receive}
use cgroup_monitor.Server.Market.Auction.Trade.{
  Served, Served-refl, Served-trans, IsSmall, total_cycles, seat-inv, receive-Served,
}
use cgroup_monitor.Server.Market.Round.{share_failed, distribute, part, raise, spread}

module _ {F : Floats} where
  -- A machine whose vCPUs received cycles for nothing.
  abbrev pub Granted : Vm F → Vm F → Type 0
  Granted v w = Each Served v.vcpus w.vcpus × (w.money ≡ v.money)

  abbrev pub Tame : List (Vm F) → Type 0
  Tame = All (λ vm. All IsSmall vm.vcpus)

  Granted-refl : (v : Vm F) → Granted v v
  Granted-refl v = (Each-refl Served Served-refl v.vcpus, refl)

  Granted-trans : (u v w : Vm F) → Granted u v → Granted v w → Granted u w
  Granted-trans u v w (p, a) (q, b) =
      (Each-trans Served Served-trans u.vcpus v.vcpus w.vcpus p q, omega arith)

  Tame-Granted : (vs ws : List (Vm F)) → Tame vs → Each Granted vs ws → Tame ws
  Tame-Granted =
      All-Each Granted _ _
        λ v w t g. All-Each Served IsSmall IsSmall (λ c d s r. omega arith) v.vcpus w.vcpus t g.0

  grant-Granted :
      (n : ℕ) (p : Ptr) (vms : List (Vm F)) (m : ℕ) (c : Vcpu F)
      → Tame vms
      → seat p vms ≡ some (m, c)
      → n ≤ c.buying
      → Each Granted vms (grant n p vms)
        × (total_cycles (grant n p vms) ≡ total_cycles vms + n)
        × (n < word)
  unfolding grant
  grant-Granted n (i, j) vms m c tame at wanted =
      let (vm, ev, ec, em) = seat-inv i j vms m c at in
      let calm = All-get_elem? _ vms i vm tame ev in
      let small = All-get_elem? IsSmall vm.vcpus j c calm ec in
      let more : cycles_of (grant_in n j vm) ≡ cycles_of vm + n =
        sum_by-modify (λ d. d.allocated) (receive n) vm.vcpus j c n ec (omega arith) in
      (
        Each-modify Granted Granted-refl vms i (grant_in n j) vm ev (
          Each-modify Served Served-refl vm.vcpus j (receive n) c ec
              (receive-Served n c small wanted),
          refl,
        ),
        sum_by-modify cycles_of (grant_in n j) vms i vm n ev more,
        omega arith,
      )

  part-le : (needed rest : ℕ) (c : Vcpu F) → part needed rest c ≤ c.buying
  unfolding part
  part-le needed rest c = omega arith

  abbrev pub Shared : List (Vm F) → ℕ → List (Vm F) × ℕ → Type 0
  Shared vms not_sold (vms', left) =
      Each Granted vms vms'
      × ((left + total_cycles vms') % word ≡ (not_sold + total_cycles vms) % word)
      × (left < word)

  -- The shares for the failed bids cost nothing and are no larger than the wishes: no vCPU loses
  -- cycles, allocation and remaining wish keep their sum, money stays, and `notSold` falls, modulo
  -- 2 ^ 64, by what is given out.
  pub distribute-Granted :
      (needed rest : ℕ) (ps : List Ptr) (vms : List (Vm F)) (not_sold : ℕ)
      → Tame vms
      → not_sold < word
      → Shared vms not_sold (distribute needed rest ps vms not_sold)
  unfolding distribute
  distribute-Granted needed rest [] vms not_sold tame small =
      (Each-refl Granted Granted-refl vms, refl, small)
  distribute-Granted needed rest (p ∷ ps) vms not_sold tame small =
      elim (Option-cases (seat p vms)) [
        | inl gone ↦
            rw (gone, distribute) (distribute-Granted needed rest ps vms not_sold tame small)
        | inr ((m, c), at) ↦
            let n = part needed rest c in
            let vms' = grant n p vms in
            let (given, more, fits) = grant-Granted n p vms m c tame at (part-le needed rest c) in
            let (all, balance, fits') =
              distribute-Granted needed rest ps vms' (sub64 not_sold n)
                (Tame-Granted vms vms' tame given) (omega arith) in
            rw (at, distribute)
              (Each-trans Granted Granted-trans vms vms' _ given all, omega arith, fits')
      ]

  sum_by-raise :
      (share : ℕ) (cs : List (Vcpu F))
      → cycles (map (raise share) cs) ≤ cycles cs + share * length cs
  sum_by-raise share [] = omega arith
  sum_by-raise share (c ∷ cs) = omega (arith, sum_by-raise share cs)

  pub total_cycles-spread :
      (share : ℕ) (vms : List (Vm F))
      → total_cycles (spread share vms)
        ≤ total_cycles vms + share * sum_by (λ vm. length vm.vcpus) vms
  unfolding spread
  total_cycles-spread share [] = omega arith
  total_cycles-spread share (v ∷ vs) =
      omega (arith, sum_by-raise share v.vcpus, total_cycles-spread share vs)

  pub share_failed-Granted :
      (a : Auction F) → Tame a.vms → a.market < half_word → Shared a.vms a.market (share_failed a)
  unfolding share_failed
  share_failed-Granted a tame fits = elim (Bool-cases (is_positive a.market)) [
    | inl go ↦ rw go (
        distribute-Granted a.needed (min a.needed a.market) a.fails a.vms a.market tame
          (omega arith))
    | inr stop ↦ rw stop (Each-refl Granted Granted-refl a.vms, refl, omega arith)
  ]
