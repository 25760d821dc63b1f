-- ===== src/Server/Control/Frames.antt =====
-- The control loop of src/server/control.cc goes on: no frame divides by zero.
use cgroup_monitor.Prelude.{
  get_elem?, ◌++◌, ℕ, ◌+◌, ◌≤◌, ◌<◌, ◌≡◌, inl, inr, refl, false, Option, none, some, List, [], ◌∷◌,
  ◌==◌, length, All, arith, Each, All-weaken, Each-weaken, All-Each, sum_by-Each, Bool-cases,
}
use cgroup_monitor.Prelude.Words.{word}
use cgroup_monitor.Floats.{Floats}
use cgroup_monitor.Libvirt.Vcpu.{
  Vcpu, Sample, update, update_before_market, add_to_history, compute_slope, publish, trim,
  percentage_consumption,
}
use cgroup_monitor.Libvirt.Vm.{Vm}
use cgroup_monitor.Server.Control.{
  Controller, Input, each_vcpu, each_vm, update_vcpu_controllers, update_vcpu_before_market,
  market_turn, frame, frames,
}
use cgroup_monitor.Server.Market.Sale.{Config, nominal_cycles, min_cycles, max_cycles}
use cgroup_monitor.Server.Market.Sale.Base.{IsReady, nb_of}
use cgroup_monitor.Server.Market.Round.Result.{run_total}
use cgroup_monitor.Server.Market.Round.Steady.{KeepsReadings, Steady, AllSteady}
use cgroup_monitor.Server.Market.Round.SteadyRound.{run-AllSteady}

module _ {F : Floats} where
  abbrev pub AllVcpus : (Vcpu F → Type 0) → List (Vm F) → Type 0
  AllVcpus P = All (λ vm. (vm.money < word) × All P vm.vcpus)

  each_vcpu-some :
      (P Q : Vcpu F → Type 0) (f : ℕ → Vcpu F → Option (Vcpu F))
      → ((j : ℕ) (v : Vcpu F) → P v → (w : Vcpu F) × (f j v ≡ some w) × Q w)
      → (j : ℕ) (cs : List (Vcpu F)) → All P cs
      → (ds : List (Vcpu F)) × (each_vcpu f j cs ≡ some ds) × All Q ds × (length ds ≡ length cs)
  unfolding each_vcpu
  each_vcpu-some P Q f h j [] a = ([], refl, tt, refl)
  each_vcpu-some P Q f h j (c ∷ cs) (p, ps) =
      let (d, e, q) = h j c p in
      let (ds, es, qs, n) = each_vcpu-some P Q f h (j + 1) cs ps in
      (d ∷ ds, rw (e, es), (q, qs), omega (arith, n))

  each_vm-some :
      (P Q : Vcpu F → Type 0) (f : ℕ → ℕ → Vcpu F → Option (Vcpu F))
      → ((i j : ℕ) (v : Vcpu F) → P v → (w : Vcpu F) × (f i j v ≡ some w) × Q w)
      → (i : ℕ) (vms : List (Vm F)) → AllVcpus P vms
      → (us : List (Vm F)) × (each_vm f i vms ≡ some us) × AllVcpus Q us × (nb_of us ≡ nb_of vms)
  unfolding each_vm
  each_vm-some P Q f h i [] a = ([], refl, tt, refl)
  each_vm-some P Q f h i (v ∷ vs) ((m, p), ps) =
      let (ds, e, q, n) = each_vcpu-some P Q (f i) (h i) 0 v.vcpus p in
      let (us, es, qs, k) = each_vm-some P Q f h (i + 1) vs ps in
      (record v { vcpus = ds } ∷ us, rw (e, es), ((m, q), qs), omega (arith, n, k))

  -- What the loop keeps of a vCPU, `i` being the frames since the market last ran.
  abbrev pub IsControlled : Config F → ℕ → Vcpu F → Type 0
  IsControlled cfg i v =
      (min_cycles ≤ nominal_cycles cfg v)
      × (nominal_cycles cfg v ≤ max_cycles)
      × (v.sum_consumption < word)
      × (v.nb_micros ≤ i)

  abbrev IsRead : Config F → ℕ → Vcpu F → Type 0
  IsRead cfg i v = IsControlled cfg i v × (0 < v.nb_micros)

  abbrev IsPublished : Config F → Vcpu F → Type 0
  IsPublished cfg v = IsReady cfg v × (v.sum_consumption ≡ 0) × (v.nb_micros ≡ 0)

  -- The processor of every sample has a frequency.
  abbrev pub IsReadable : Input F → Type 0
  IsReadable inp = (i j : ℕ) → (f : ℕ) × (get_elem? inp.freq (inp.sample i j).cpu ≡ some f)

  -- A state as between two frames.
  abbrev pub IsRunning : Controller F → Type 0
  IsRunning c = (c.i ≤ 1) × (0 < nb_of c.vms) × AllVcpus (IsControlled c.config c.i) c.vms

  abbrev Gives : (Vcpu F → Type 0) → Option (Vcpu F) → Type 0
  Gives Q none = ⊥
  Gives Q (some w) = Q w

  Gives-some :
      (Q : Vcpu F → Type 0) (r : Option (Vcpu F)) → Gives Q r → (w : Vcpu F) × (r ≡ some w) × Q w
  Gives-some Q none g = absurd g
  Gives-some Q (some w) g = (w, refl, g)

  update-some :
      (cfg : Config F) (i : ℕ) (freq : List ℕ) (s : Sample F) (v : Vcpu F) (f : ℕ)
      → i ≤ 1
      → get_elem? freq s.cpu ≡ some f
      → IsControlled cfg i v
      → (w : Vcpu F) × (update freq s v ≡ some w) × IsRead cfg (i + 1) w
  unfolding update nominal_cycles
  update-some cfg i freq s v f le e (lo, hi, sum, nb) =
      Gives-some (IsRead cfg (i + 1)) (update freq s v)
        (rw (e, Gives) ((lo, hi, omega arith, omega arith), omega arith))

  add_to_history-IsPublished :
      (cfg : Config F) (v : Vcpu F) → IsPublished cfg v → IsPublished cfg (add_to_history v)
  unfolding add_to_history compute_slope nominal_cycles
  add_to_history-IsPublished cfg v p =
      elim (Bool-cases (
        length (trim v.max_history (v.history ++ percentage_consumption v ∷ []))
        == v.max_history)) [ inl full ↦ rw (full) p | inr filling ↦ rw (filling) p ]

  publish-IsPublished :
      (cfg : Config F) (i : ℕ) (v : Vcpu F) → IsControlled cfg i v → IsPublished cfg (publish v)
  unfolding publish nominal_cycles
  publish-IsPublished cfg i v (lo, hi, sum, nb) = ((lo, hi, sum, refl), refl, refl)

  update_before_market-some :
      (cfg : Config F) (i : ℕ) (v : Vcpu F)
      → IsRead cfg i v
      → (w : Vcpu F) × (update_before_market v ≡ some w) × IsPublished cfg w
  unfolding update_before_market
  update_before_market-some cfg i v (c, nb) =
      let no : (v.nb_micros == 0) ≡ false = ground arith in
      (_, rw (no) refl, add_to_history-IsPublished cfg (publish v) (publish-IsPublished cfg i v c))

  IsControlled-again :
      (cfg : Config F) (v w : Vcpu F) → IsPublished cfg v → KeepsReadings v w → IsControlled cfg 1 w
  unfolding nominal_cycles
  IsControlled-again cfg v w ((lo, hi, _, _), s, n) (f, s', n', _) =
      rw (f) (lo, hi, omega arith, omega arith)

  update_vcpu_controllers-some :
      (inp : Input F) (cfg : Config F) (i : ℕ) (vms : List (Vm F))
      → i ≤ 1
      → IsReadable inp
      → AllVcpus (IsControlled cfg i) vms
      → (us : List (Vm F)) × (update_vcpu_controllers inp vms ≡ some us)
        × AllVcpus (IsRead cfg (i + 1)) us
        × (nb_of us ≡ nb_of vms)
  unfolding update_vcpu_controllers
  update_vcpu_controllers-some inp cfg i vms le r a =
      each_vm-some (IsControlled cfg i) (IsRead cfg (i + 1)) _
        (λ k j v p. update-some cfg i inp.freq (inp.sample k j) v (r k j).0 le (r k j).1 p) 0 vms a

  update_vcpu_before_market-some :
      (cfg : Config F) (i : ℕ) (vms : List (Vm F))
      → AllVcpus (IsRead cfg i) vms
      → (us : List (Vm F)) × (update_vcpu_before_market vms ≡ some us)
        × AllVcpus (IsPublished cfg) us
        × (nb_of us ≡ nb_of vms)
  unfolding update_vcpu_before_market
  update_vcpu_before_market-some cfg i vms a =
      each_vm-some (IsRead cfg i) (IsPublished cfg) _
        (λ k j v p. update_before_market-some cfg i v p) 0 vms a

  AllVcpus-weaken :
      (P Q : Vcpu F → Type 0) (vms : List (Vm F))
      → ((v : Vcpu F) → P v → Q v)
      → AllVcpus P vms
      → AllVcpus Q vms
  AllVcpus-weaken P Q [] h a = tt
  AllVcpus-weaken P Q (v ∷ vs) h ((m, p), ps) =
      ((m, All-weaken P Q h v.vcpus p), AllVcpus-weaken P Q vs h ps)

  AllVcpus-AllSteady :
      (P Q : Vcpu F → Type 0) (vms us : List (Vm F))
      → ((v w : Vcpu F) → P v → KeepsReadings v w → Q w)
      → AllVcpus P vms
      → AllSteady vms us
      → AllVcpus Q us
  AllVcpus-AllSteady P Q vms us h =
      All-Each Steady _ _
        (λ v w (m, p) (e, k, _). (k m, All-Each KeepsReadings P Q h v.vcpus w.vcpus p e)) vms us

  length-Each :
      (R : Vcpu F → Vcpu F → Type 0) (cs ds : List (Vcpu F)) → Each R cs ds → length ds ≡ length cs
  length-Each R [] [] e = refl
  length-Each R [] (d ∷ ds) e = absurd e
  length-Each R (c ∷ cs) [] e = absurd e
  length-Each R (c ∷ cs) (d ∷ ds) (e, es) = omega (arith, length-Each R cs ds es)

  nb_of-AllSteady : (vms us : List (Vm F)) → AllSteady vms us → nb_of us ≡ nb_of vms
  nb_of-AllSteady vms us e =
      sum_by-Each (λ vm. length vm.vcpus) vms us
        (Each-weaken Steady _ (λ v w (p, m, _). length-Each KeepsReadings v.vcpus w.vcpus p) vms us
          e)

  -- The market's turn has a result, and the vCPUs can be read again.
  market_turn-some :
      (nprocs i : ℕ) (c : Controller F) (vms : List (Vm F))
      → 0 < nb_of vms
      → AllVcpus (IsRead c.config i) vms
      → (us : List (Vm F)) × (market_turn nprocs c vms ≡ some us)
        × AllVcpus (IsControlled c.config 1) us
        × (nb_of us ≡ nb_of vms)
  market_turn-some nprocs i c vms nb a =
      let (us, e, p, n) = update_vcpu_before_market-some c.config i vms a in
      let ready = AllVcpus-weaken (IsPublished c.config) (IsReady c.config) us (λ v q. q.0) p in
      let (ws, ew) = run_total nprocs c.config us (omega (arith, n)) ready in
      elim (Bool-cases c.market_enabled) [
        | inl on ↦
            let kept = run-AllSteady nprocs c.config us ws ew in
            (
              ws,
              rw (e, on, ew) refl,
              AllVcpus-AllSteady (IsPublished c.config) (IsControlled c.config 1) us ws
                  (IsControlled-again c.config) p kept,
              omega (arith, n, nb_of-AllSteady us ws kept),
            )
        | inr off ↦ (
          us,
          rw (e, off) refl,
          AllVcpus-weaken (IsPublished c.config) (IsControlled c.config 1) us
              (λ v q. IsControlled-again c.config v v q (refl, refl, refl, refl)) p,
          n,
        )
      ]

  frame_total :
      (nprocs : ℕ) (inp : Input F) (c : Controller F)
      → IsRunning c
      → IsReadable inp
      → (d : Controller F) × (frame nprocs inp c ≡ some d) × IsRunning d
  unfolding frame
  frame_total nprocs inp c (le, nb, a) r =
      let (vms, e, p, n) = update_vcpu_controllers-some inp c.config c.i c.vms le r a in
      elim (Bool-cases (c.i == 1)) [
        | inl turn ↦
            let (us, eu, q, k) = market_turn-some nprocs (c.i + 1) c vms (omega (arith, n)) p in
            (
              record c { vms = us; i = 1 },
              rw (e, turn, eu) refl,
              (omega arith, omega (arith, n, k), q),
            )
        | inr wait ↦ (
          record c { vms = vms; i = c.i + 1 },
          rw (e, wait) refl,
          (
            ground (arith, wait),
            omega (arith, n),
            AllVcpus-weaken (IsRead c.config (c.i + 1)) (IsControlled c.config (c.i + 1)) vms
                (λ v q. q.0) p,
          ),
        )
      ]

  -- In a state as between two frames some vCPU is controlled, every nominal frequency is one that the
  -- market takes, the sums and the money fit their words, and `i` is at most 1 and at least the number
  -- of readings since the market ran. From such a state, if every sample names a processor whose
  -- frequency is known, the loop does all its frames, with no division by zero in the readings or in
  -- the market, and ends in such a state again.
  pub frames_total :
      (nprocs : ℕ) (inps : List (Input F)) (c : Controller F)
      → IsRunning c
      → All IsReadable inps
      → (d : Controller F) × (frames nprocs inps c ≡ some d) × IsRunning d
  unfolding frames
  frames_total nprocs [] c r a = (c, refl, r)
  frames_total nprocs (inp ∷ inps) c r (a, as') =
      let (d, e, q) = frame_total nprocs inp c r a in
      let (d', e', q') = frames_total nprocs inps d q as' in (d', rw (e, e') refl, q')
