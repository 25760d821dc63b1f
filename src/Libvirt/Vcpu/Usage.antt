-- ===== src/Libvirt/Vcpu/Usage.antt =====
-- The microseconds that a controller counts between two market rounds, and the frequency and
-- quotas computed from them.
use cgroup_monitor.Prelude.{
  ℕ, ◌+◌, ◌-◌, ◌/◌, ◌%◌, ◌^◌, ◌≤◌, ◌<◌, ◌≡◌, ◌≢◌, refl, ◌∙◌, List, [], ◌∷◌, Option, some, none,
  arith, All, get_elem?-lt, Option-cases, inl, inr, length, true, ◌⊎◌, ℕ_discrete,
}
use cgroup_monitor.Prelude.Words.{word, add64, sub64}
use cgroup_monitor.Floats.{Floats}
use cgroup_monitor.Libvirt.Cgroup.{Cgroup, read_usage}
use cgroup_monitor.Libvirt.Vcpu.{
  Vcpu, Sample, update, update_before_market, add_to_history, compute_slope, publish,
}

read_usage-lt : (g : Cgroup) (n : ℕ) → read_usage g n < 2 ^ 32
unfolding read_usage
read_usage-lt g n = ground arith

telescope :
    (s u m w : ℕ)
    → u < 2 ^ 32
    → m < 2 ^ 32
    → w < 2 ^ 32
    → add64 (add64 s (sub64 m u)) (sub64 w m) ≡ add64 s (sub64 w u)
telescope s u m w a b c = omega arith

module _ {F : Floats} where
  -- Several readings, one after the other.
  unfoldable pub updates : List ℕ → List (Sample F) → Vcpu F → Option (Vcpu F)
  updates freq [] v = some v
  updates freq (s ∷ ss) v = elim (update freq s v) [ none ↦ none | some v' ↦ updates freq ss v' ]

  -- The last usage that was read, or the one before the first reading.
  abbrev pub final_usage : Cgroup → ℕ → List (Sample F) → ℕ
  final_usage g u [] = u
  final_usage g u (s ∷ ss) = final_usage g (read_usage g s.counter) ss

  -- Every reading names a processor whose frequency is known.
  abbrev pub AllKnown : List ℕ → List (Sample F) → Type 0
  AllKnown freq = All (λ s. s.cpu < length freq)

  final_usage-lt :
      (g : Cgroup) (u : ℕ) (ss : List (Sample F)) → u < 2 ^ 32 → final_usage g u ss < 2 ^ 32
  final_usage-lt g u [] a = a
  final_usage-lt g u (s ∷ ss) a =
      final_usage-lt g (read_usage g s.counter) ss (read_usage-lt g s.counter)

  update-eq :
      (freq : List ℕ) (s : Sample F) (v : Vcpu F) {v' : Vcpu F}
      → update freq s v ≡ some v'
      → (v'.micro_consumption ≡ read_usage v.cgroup s.counter)
        × (v'.sum_consumption
            ≡ add64 v.sum_consumption (sub64 (read_usage v.cgroup s.counter) v.micro_consumption))
        × (v'.cgroup ≡ v.cgroup)
        × (v'.nb_micros ≡ add64 v.nb_micros 1)
  unfolding update
  update-eq freq s v e = ground arith

  updates-cons :
      (freq : List ℕ) (s : Sample F) (ss : List (Sample F)) (v : Vcpu F) {v' : Vcpu F}
      → updates freq (s ∷ ss) v ≡ some v'
      → (m : Vcpu F) × (update freq s v ≡ some m) × (updates freq ss m ≡ some v')
  unfolding updates
  updates-cons freq s ss v e = elim (Option-cases (update freq s v)) [
    | inl gone ↦ absurd (ground (arith, gone))
    | inr (m, em) ↦ (m, em, ground (arith, em))
  ]

  -- The sum of the consumption telescopes: after any number of readings, it has grown by the
  -- difference, modulo 2 ^ 64, between the last usage that was read and the one before the first
  -- reading, whatever the readings between them were.
  pub sum_consumption-updates :
      (freq : List ℕ) (ss : List (Sample F)) (v v' : Vcpu F)
      → v.sum_consumption < word
      → v.micro_consumption < 2 ^ 32
      → updates freq ss v ≡ some v'
      → v'.sum_consumption
        ≡ add64 v.sum_consumption
            (sub64 (final_usage v.cgroup v.micro_consumption ss) v.micro_consumption)
  unfolding updates
  sum_consumption-updates freq [] v v' a b e = ground arith
  sum_consumption-updates freq (s ∷ ss) v v' a b e =
      let (m, em, rest) = updates-cons freq s ss v e in
      let (micro, sum, same, _) = update-eq freq s v em in
      let r = read_usage v.cgroup s.counter in
      let ih : v'.sum_consumption
          ≡ add64 m.sum_consumption
              (sub64 (final_usage m.cgroup m.micro_consumption ss) m.micro_consumption) =
        sum_consumption-updates freq ss m v' (rw sum (omega arith))
          (rw micro (read_usage-lt v.cgroup s.counter)) rest in
      (rw (sum, same, micro) at ih)
      ∙ telescope v.sum_consumption v.micro_consumption r (final_usage v.cgroup r ss) b
          (read_usage-lt v.cgroup s.counter)
          (final_usage-lt v.cgroup r ss (read_usage-lt v.cgroup s.counter))

  -- If the usage counters do not wrap between a round's first and last reading, a round that began
  -- with its sum at zero reports as consumption what the counter has grown by.
  pub consumption_round :
      (freq : List ℕ) (ss : List (Sample F)) (v v' w : Vcpu F)
      → v.sum_consumption ≡ 0
      → v.micro_consumption ≤ final_usage v.cgroup v.micro_consumption ss
      → v.micro_consumption < 2 ^ 32
      → updates freq ss v ≡ some v'
      → update_before_market v' ≡ some w
      → w.consumption ≡ final_usage v.cgroup v.micro_consumption ss - v.micro_consumption
  unfolding update_before_market
  consumption_round freq ss v v' w z grows small e before =
      let total = sum_consumption-updates freq ss v v' (omega arith) small e in
      let bound = final_usage-lt v.cgroup v.micro_consumption ss small in
      let kept : w.consumption ≡ v'.sum_consumption = ground arith in omega arith

  -- When the usage of a version 2 group passes 2 ^ 32 microseconds between two readings, the
  -- reading is cut to 32 bits and the consumption of that reading is counted 2 ^ 64 - 2 ^ 32 too
  -- high.
  pub update_wrapped :
      (freq : List ℕ) (s : Sample F) (v v' : Vcpu F)
      → v.cgroup.v2 ≡ true
      → v.sum_consumption ≡ 0
      → v.micro_consumption < 2 ^ 32
      → 2 ^ 32 ≤ s.counter
      → s.counter < 2 ^ 32 + v.micro_consumption
      → update freq s v ≡ some v'
      → v'.sum_consumption ≡ s.counter - v.micro_consumption + (word - 2 ^ 32)
  unfolding read_usage
  update_wrapped freq s v v' two z small over once e =
      let (_, sum, _, _) = update-eq freq s v e in
      let cut : read_usage v.cgroup s.counter ≡ s.counter % 2 ^ 32 = ground arith in omega arith

  -- What a round leaves behind: `w` after `v`.
  abbrev IsPublished : Vcpu F → Vcpu F → Type 0
  IsPublished v w =
      (w.consumption ≡ v.sum_consumption)
      × (w.delta ≡ v.sum_delta)
      × (w.last_frequency ≡ v.sum_frequency / v.nb_micros)
      × (w.sum_consumption ≡ 0)
      × (w.sum_frequency ≡ 0)
      × (w.nb_micros ≡ 0)
      × (w.allocated ≡ 0)
      × (w.buying ≡ 0)

  -- `updateBeforeMarket` divides by zero exactly when no reading was made since its last call.
  -- Otherwise the consumption, the time and the mean frequency of the round are published, and the
  -- sums, the allocation and the wish to buy start again from zero.
  update_before_market_lem :
      (v : Vcpu F)
      → (v.nb_micros ≡ 0) × (update_before_market v ≡ none)
        ⊎ ((v.nb_micros ≢ 0)
            × (update_before_market v ≡ some (add_to_history (publish v)))
            × IsPublished v (add_to_history (publish v)))
  unfolding update_before_market add_to_history compute_slope publish
  update_before_market_lem v = elim (ℕ_discrete v.nb_micros 0) [
    | yes z ↦ inl (z, ground arith)
    | no n ↦ inr (n, ground arith, ground arith)
  ]

  update-known :
      (freq : List ℕ) (s : Sample F) (v : Vcpu F)
      → s.cpu < length freq
      → (v' : Vcpu F) × (update freq s v ≡ some v')
  unfolding update
  update-known freq s v k = let (f, e) = get_elem?-lt freq s.cpu k in rw (e, update) (_, refl)

  nb_micros-updates :
      (freq : List ℕ) (ss : List (Sample F)) (v : Vcpu F)
      → AllKnown freq ss
      → v.nb_micros + length ss < word
      → (v' : Vcpu F) × (updates freq ss v ≡ some v') × (v'.nb_micros ≡ v.nb_micros + length ss)
  unfolding updates
  nb_micros-updates freq [] v k b = (v, refl, omega arith)
  nb_micros-updates freq (s ∷ ss) v (k, ks) b =
      let (m, em) = update-known freq s v k in
      let (_, _, _, count) = update-eq freq s v em in
      let (w, ew, more) = nb_micros-updates freq ss m ks (omega arith) in
      (w, rw (em, updates) ew, omega arith)

  -- A round of at least one reading, each of a known processor, always ends in a published
  -- consumption: no read is out of bounds and `updateBeforeMarket` does not divide by zero.
  pub round_total :
      (freq : List ℕ) (s : Sample F) (ss : List (Sample F)) (v : Vcpu F)
      → AllKnown freq (s ∷ ss)
      → v.nb_micros + length (s ∷ ss) < word
      → (v' : Vcpu F) × (w : Vcpu F) × (updates freq (s ∷ ss) v ≡ some v')
        × (update_before_market v' ≡ some w)
  round_total freq s ss v k b =
      let (v', e, n) = nb_micros-updates freq (s ∷ ss) v k b in
      (v', add_to_history (publish v'), e, ground (arith, update_before_market_lem v'))
