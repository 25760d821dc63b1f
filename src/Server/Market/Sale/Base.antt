-- ===== src/Server/Market/Sale/Base.antt =====
-- The sale of the base cycles to all vCPUs of the host.
use cgroup_monitor.Prelude.{
  ℕ, ◌+◌, ◌%◌, ◌≤◌, ◌<◌, ◌≡◌, ◌⊎◌, true, false, List, [], ◌∷◌, arith, min, max, All, Each, sum_by,
  length, ◌*◌,
}
use cgroup_monitor.Prelude.Words.{word, half_word, sub64, is_negative}
use cgroup_monitor.Floats.{Floats}
use cgroup_monitor.Libvirt.Vcpu.{Vcpu}
use cgroup_monitor.Libvirt.Vm.{Vm}
use cgroup_monitor.Server.Market.Sale.{
  Config, Sale, sell_base, deal, sell_vcpus, sell_vms, nominal_cycles, min_cycles, max_cycles,
}
use cgroup_monitor.Server.Market.Sale.Bounds.{wish, Sells, sell_base-Sells}

-- The two sides agree modulo the machine word.
abbrev pub Balances : (before after sold : ℕ) → Type 0
Balances before after sold = ((after + sold) % word ≡ before % word) × (after < word)

Balances-sub64 : (m n a rest : ℕ) → a < word → Balances (sub64 m a) n rest → Balances m n (a + rest)
Balances-sub64 m n a rest h k = omega arith

module _ {F : Floats} where
  -- A vCPU at the start of a market round, with a nominal share between the minimum and a second.
  abbrev pub IsReady : Config F → Vcpu F → Type 0
  IsReady cfg v =
      (min_cycles ≤ nominal_cycles cfg v)
      × (nominal_cycles cfg v ≤ max_cycles)
      × (v.consumption < word)
      × (v.buying ≡ 0)

  abbrev pub AreReady : Config F → List (Vm F) → Type 0
  AreReady cfg = All (λ vm. (vm.money < word) × All (IsReady cfg) vm.vcpus)

  -- What a vCPU is sure to get.
  abbrev pub guarantee : Config F → Vcpu F → ℕ
  guarantee cfg v = max min_cycles (min (nominal_cycles cfg v) (wish cfg v))

  -- A vCPU before and after the sale.
  abbrev pub Offered : Config F → Vcpu F → Vcpu F → Type 0
  Offered cfg c d = (d.allocated ≡ guarantee cfg c) × (d.allocated + d.buying ≤ max_cycles)

  abbrev pub cycles : List (Vcpu F) → ℕ
  cycles = sum_by (λ c. c.allocated)

  abbrev pub cycles_of : Vm F → ℕ
  cycles_of vm = cycles vm.vcpus

  Sells-Offered :
      (cfg : Config F) (v : Vcpu F) (money market : ℕ) (s : Sale F)
      → IsReady cfg v
      → money < word
      → Sells v (nominal_cycles cfg v) (wish cfg v) money market s
      → Offered cfg v s.vcpu × (s.money < word)
  Sells-Offered cfg v money market s r m h = ground arith

  sell_vcpus_lem :
      (cfg : Config F) (i j money market nb : ℕ) (cs : List (Vcpu F))
      → All (IsReady cfg) cs
      → money < word
      → market < word
      → let s = sell_vcpus cfg i j money market nb cs in
        Each (Offered cfg) cs s.vcpus
        × (s.money < word)
        × Balances market s.market (cycles s.vcpus)
        × (s.nb_vcpus ≡ nb + length cs)
  unfolding sell_vcpus
  sell_vcpus_lem cfg i j money market nb [] r m k = (tt, m, omega arith, omega arith)
  sell_vcpus_lem cfg i j money market nb (c ∷ cs) (r, rs) m k =
      let s = sell_base cfg c money market in
      let sells = sell_base-Sells cfg c money market r.0 r.1 r.2 in
      let (offered, rich) = Sells-Offered cfg c money market s r m sells in
      let e : s.market ≡ sub64 market s.vcpu.allocated = sells.1 in
      let (all, rich', balance, count) =
        sell_vcpus_lem cfg i (j + 1) s.money s.market (nb + 1) cs rs rich (omega arith) in
      ((offered, all), rich', omega arith, omega arith)

  -- A machine before and after the sale.
  abbrev pub Prepared : Config F → Vm F → Vm F → Type 0
  Prepared cfg v w = Each (Offered cfg) v.vcpus w.vcpus × (w.money < word)

  pub sell_vms_lem :
      (cfg : Config F) (i market nb : ℕ) (vms : List (Vm F))
      → AreReady cfg vms
      → market < word
      → let s = sell_vms cfg i market nb vms in
        Each (Prepared cfg) vms s.vms
        × Balances market s.market (sum_by cycles_of s.vms)
        × (s.nb_vcpus ≡ nb + sum_by (λ vm. length vm.vcpus) vms)
  unfolding sell_vms
  sell_vms_lem cfg i market nb [] r k = (tt, omega arith, omega arith)
  sell_vms_lem cfg i market nb (v ∷ vs) ((m, r), rs) k =
      let s = sell_vcpus cfg i 0 v.money market nb v.vcpus in
      let (all, rich, balance, count) = sell_vcpus_lem cfg i 0 v.money market nb v.vcpus r m k in
      let (all', balance', count') = sell_vms_lem cfg (i + 1) s.market s.nb_vcpus vs rs balance.1 in
      (((all, rich), all'), omega arith, omega arith)

  -- The sale leaves the quota and the control group of a vCPU as they were.
  abbrev pub Untouched : Vcpu F → Vcpu F → Type 0
  Untouched c d = (d.quota ≡ c.quota) × (d.cgroup ≡ c.cgroup)

  sell_base-Untouched :
      (cfg : Config F) (v : Vcpu F) (money market : ℕ)
      → Untouched v (sell_base cfg v money market).vcpu
  unfolding sell_base deal
  sell_base-Untouched cfg v money market = ground arith

  sell_vcpus-Untouched :
      (cfg : Config F) (i j money market nb : ℕ) (cs : List (Vcpu F))
      → Each Untouched cs (sell_vcpus cfg i j money market nb cs).vcpus
  unfolding sell_vcpus
  sell_vcpus-Untouched cfg i j money market nb [] = tt
  sell_vcpus-Untouched cfg i j money market nb (c ∷ cs) =
      let s = sell_base cfg c money market in
      (
        sell_base-Untouched cfg c money market,
        sell_vcpus-Untouched cfg i (j + 1) s.money s.market (nb + 1) cs,
      )

  pub sell_vms-Untouched :
      (cfg : Config F) (i market nb : ℕ) (vms : List (Vm F))
      → Each (λ v w. Each Untouched v.vcpus w.vcpus) vms (sell_vms cfg i market nb vms).vms
  unfolding sell_vms
  sell_vms-Untouched cfg i market nb [] = tt
  sell_vms-Untouched cfg i market nb (v ∷ vs) =
      let s = sell_vcpus cfg i 0 v.money market nb v.vcpus in
      (
        sell_vcpus-Untouched cfg i 0 v.money market nb v.vcpus,
        sell_vms-Untouched cfg (i + 1) s.market s.nb_vcpus vs,
      )

  -- The cycles that a machine, and the host, owe.
  abbrev pub owed_by : Config F → Vm F → ℕ
  owed_by cfg vm = sum_by (guarantee cfg) vm.vcpus

  abbrev pub owed : Config F → List (Vm F) → ℕ
  owed cfg = sum_by (owed_by cfg)

  abbrev pub nb_of : List (Vm F) → ℕ
  nb_of = sum_by (λ vm. length vm.vcpus)

  cycles-Offered :
      (cfg : Config F) (cs ds : List (Vcpu F))
      → Each (Offered cfg) cs ds
      → (cycles ds ≡ sum_by (guarantee cfg) cs) × (cycles ds ≤ max_cycles * length cs)
  cycles-Offered cfg [] [] e = omega arith
  cycles-Offered cfg [] (d ∷ ds) e = absurd e
  cycles-Offered cfg (c ∷ cs) [] e = absurd e
  cycles-Offered cfg (c ∷ cs) (d ∷ ds) (e, es) = omega (arith, cycles-Offered cfg cs ds es)

  pub total-Prepared :
      (cfg : Config F) (vs ws : List (Vm F))
      → Each (Prepared cfg) vs ws
      → (sum_by cycles_of ws ≡ owed cfg vs) × (sum_by cycles_of ws ≤ max_cycles * nb_of vs)
  total-Prepared cfg [] [] e = omega arith
  total-Prepared cfg [] (w ∷ ws) e = absurd e
  total-Prepared cfg (v ∷ vs) [] e = absurd e
  total-Prepared cfg (v ∷ vs) (w ∷ ws) (e, es) =
      omega (arith, cycles-Offered cfg v.vcpus w.vcpus e.0, total-Prepared cfg vs ws es)

  -- If the machines are ready and the numbers fit a `long`, the market is negative after the sale
  -- exactly when the host owes more than it has, and otherwise holds what it does not owe.
  pub sell_vms-market :
      (cfg : Config F) (market : ℕ) (vms : List (Vm F))
      → AreReady cfg vms
      → market < half_word
      → max_cycles * nb_of vms < half_word
      → let s = sell_vms cfg 0 market 0 vms in
        (market < owed cfg vms) × (is_negative s.market ≡ true)
        ⊎ (s.market + owed cfg vms ≡ market) × (is_negative s.market ≡ false)
  sell_vms-market cfg market vms r k small =
      let s = sell_vms cfg 0 market 0 vms in
      let (all, balance, _) = sell_vms_lem cfg 0 market 0 vms r (omega arith) in
      let (same, bound) = total-Prepared cfg vms s.vms all in ground arith
