-- ===== src/Server/Threads/Names.antt =====
-- The names of the machines stay apart.
use cgroup_monitor.Prelude.{
  ℕ, ◌+◌, ◌≡◌, refl, ap, sym, subst, ◌∙◌, inl, inr, true, false, Option, some, List, [], ◌∷◌, ◌++◌,
  map, Text, text_eq, text_eq_iff, arith, Bool-cases, Option-cases,
}
use mathlib.Core.Option.{some-injective}
use cgroup_monitor.Floats.{Floats}
use cgroup_monitor.Libvirt.Registry.{has_vm, remove_vm, kill, provision}
use cgroup_monitor.Libvirt.Registry.Search.{has_vm-get_vm, has_vm-remove_vm}
use cgroup_monitor.Libvirt.Vcpu.{Vcpu}
use cgroup_monitor.Libvirt.Vm.{Vm}
use cgroup_monitor.Server.Control.{
  each_vcpu, each_vm, update_vcpu_controllers, update_vcpu_before_market,
}
use cgroup_monitor.Server.Market.Round.{reset}
use cgroup_monitor.Server.Market.Round.Steady.{AllSteady}
use cgroup_monitor.Server.Market.Round.SteadyRound.{run-AllSteady}
use cgroup_monitor.Server.Market.Sale.{Config}
use cgroup_monitor.Server.Threads.{
  Shared, Step, kills, resets, begins, joins, gives_up, reads, publishes, trades, Steps, still,
  later, BeginsAlone, AllBeginAlone,
}
use cgroup_monitor.Utils.Tokenizer.{one_of}

-- No name occurs twice.
abbrev pub AreDistinct : List Text → Type 0
AreDistinct [] = Unit
AreDistinct (n ∷ ns) = (one_of ns n ≡ false) × AreDistinct ns

one_of-append :
    (ns : List Text) (n m : Text)
    → one_of ns m ≡ false
    → text_eq n m ≡ false
    → one_of (ns ++ n ∷ []) m ≡ false
unfolding one_of
one_of-append [] n m o e = ground (arith, e)
one_of-append (k ∷ ns) n m o e = elim (Bool-cases (text_eq k m)) [
  | inl same ↦ absurd (ground (arith, o, same))
  | inr other ↦ rw (other) (one_of-append ns n m (rw (other) at o) e)
]

text_eq-apart : (m n : Text) → text_eq m n ≡ false → text_eq n m ≡ false
text_eq-apart m n e = elim (Bool-cases (text_eq n m)) [
  | inl same ↦ absurd (ground (arith, e, (text_eq_iff m n).1 (sym ((text_eq_iff n m).0 same))))
  | inr other ↦ other
]

AreDistinct-append :
    (ns : List Text) (n : Text) → AreDistinct ns → one_of ns n ≡ false → AreDistinct (ns ++ n ∷ [])
unfolding one_of
AreDistinct-append [] n d o = (refl, tt)
AreDistinct-append (m ∷ ns) n (f, d) o = elim (Bool-cases (text_eq m n)) [
  | inl same ↦ absurd (ground (arith, o, same))
  | inr other ↦ (
    one_of-append ns n m f (text_eq-apart m n other),
    AreDistinct-append ns n d (rw (other) at o),
  )
]

one_of-without :
    (before : List Text) (n : Text) (behind : List Text) (m : Text)
    → one_of (before ++ n ∷ behind) m ≡ false
    → one_of (before ++ behind) m ≡ false
unfolding one_of
one_of-without [] n behind m h = ground (arith, h)
one_of-without (k ∷ before) n behind m h = elim (Bool-cases (text_eq k m)) [
  | inl same ↦ absurd (ground (arith, h, same))
  | inr other ↦ rw (other) (one_of-without before n behind m (rw (other) at h))
]

one_of-apart :
    (before : List Text) (n : Text) (behind : List Text) (m : Text)
    → one_of (before ++ n ∷ behind) m ≡ false
    → text_eq m n ≡ false
unfolding one_of
one_of-apart [] n behind m h = text_eq-apart n m (ground (arith, h))
one_of-apart (k ∷ before) n behind m h = elim (Bool-cases (text_eq k m)) [
  | inl same ↦ absurd (ground (arith, h, same))
  | inr other ↦ one_of-apart before n behind m (rw (other) at h)
]

-- Without one of its names, a list of different names has different names, and that name no more.
without-AreDistinct :
    (before : List Text) (n : Text) (behind : List Text)
    → AreDistinct (before ++ n ∷ behind)
    → AreDistinct (before ++ behind) × (one_of (before ++ behind) n ≡ false)
unfolding one_of
without-AreDistinct [] n behind (out, d) = (d, out)
without-AreDistinct (m ∷ before) n behind (out, d) =
    let (d', out') = without-AreDistinct before n behind d in
    (
      (one_of-without before n behind m out, d'),
      ground (arith, out', one_of-apart before n behind m out),
    )

one_of-within :
    (before : List Text) (n : Text) (behind : List Text) → one_of (before ++ n ∷ behind) n ≡ true
unfolding one_of
one_of-within [] n behind = ground (arith, (text_eq_iff n n).1 refl)
one_of-within (m ∷ before) n behind = ground (arith, one_of-within before n behind)

-- What stands in a list without a name stands in the list.
one_of-more :
    (before : List Text) (n : Text) (behind : List Text) (m : Text)
    → one_of (before ++ behind) m ≡ true
    → one_of (before ++ n ∷ behind) m ≡ true
unfolding one_of
one_of-more [] n behind m h = ground (arith, h)
one_of-more (k ∷ before) n behind m h = elim (Bool-cases (text_eq k m)) [
  | inl same ↦ ground (arith, same)
  | inr other ↦ ground (arith, one_of-more before n behind m (rw (other) at h))
]

module _ {F : Floats} where
  abbrev pub names : List (Vm F) → List Text
  names = map (λ vm. vm.id)

  has_vm-names : (name : Text) (vms : List (Vm F)) → has_vm name vms ≡ one_of (names vms) name
  unfolding has_vm one_of
  has_vm-names name [] = refl
  has_vm-names name (vm ∷ vms) = ground (arith, has_vm-names name vms)

  names-append : (us : List (Vm F)) (vm : Vm F) → names (us ++ vm ∷ []) ≡ names us ++ vm.id ∷ []
  names-append [] vm = refl
  names-append (u ∷ us) vm = ap (◌∷◌ u.id) (names-append us vm)

  remove_vm-AreDistinct :
      (name : Text) (vms : List (Vm F)) → AreDistinct (names (remove_vm name vms))
  unfolding remove_vm one_of
  remove_vm-AreDistinct name [] = tt
  remove_vm-AreDistinct name (vm ∷ vms) = elim (Bool-cases (text_eq vm.id name)) [
    | inl same ↦ rw (same) (remove_vm-AreDistinct name vms)
    | inr other ↦ rw (other) (refl, tt)
  ]

  pub kill-AreDistinct :
      (name : Text) (vms : List (Vm F))
      → AreDistinct (names vms)
      → AreDistinct (names (kill name vms)) × (has_vm name (kill name vms) ≡ false)
  unfolding kill
  kill-AreDistinct name vms d = elim (has_vm-get_vm name vms) [
    | inl (has, (v, found, e)) ↦
        rw (found) (remove_vm-AreDistinct name vms, has_vm-remove_vm name vms)
    | inr (has, gone) ↦ rw (gone) (d, has)
  ]

  -- A kill brings no name.
  one_of-remove_vm :
      (name m : Text) (vms : List (Vm F))
      → one_of (names vms) m ≡ false
      → one_of (names (remove_vm name vms)) m ≡ false
  unfolding remove_vm one_of
  one_of-remove_vm name m [] h = refl
  one_of-remove_vm name m (vm ∷ vms) h = elim (Bool-cases (text_eq vm.id m)) [
    | inl same ↦ absurd (ground (arith, h, same))
    | inr other ↦ elim (Bool-cases (text_eq vm.id name)) [
      | inl gone ↦ rw (gone) (one_of-remove_vm name m vms (rw (other) at h))
      | inr stays ↦ rw (stays) (ground (arith, other))
    ]
  ]

  one_of-kill :
      (name m : Text) (vms : List (Vm F))
      → one_of (names vms) m ≡ false
      → one_of (names (kill name vms)) m ≡ false
  unfolding kill
  one_of-kill name m vms h = elim (has_vm-get_vm name vms) [
    | inl (has, (v, found, e)) ↦ rw (found) (one_of-remove_vm name m vms h)
    | inr (has, gone) ↦ rw (gone) h
  ]

  pub provision-AreDistinct :
      (vm : Vm F) (vms : List (Vm F))
      → AreDistinct (names vms)
      → AreDistinct (names (provision vm vms))
  unfolding provision
  provision-AreDistinct vm vms d =
      let us = kill vm.id vms in
      let (apart, free) = kill-AreDistinct vm.id vms d in
      subst AreDistinct (sym (names-append us vm))
        (AreDistinct-append (names us) vm.id apart (sym (has_vm-names vm.id us) ∙ free))

  pub names-reset : (vms : List (Vm F)) → names (reset vms) ≡ names vms
  unfolding reset
  names-reset [] = refl
  names-reset (vm ∷ vms) = ap (◌∷◌ vm.id) (names-reset vms)

  names-each_vm :
      (f : ℕ → ℕ → Vcpu F → Option (Vcpu F)) (i : ℕ) (vms us : List (Vm F))
      → each_vm f i vms ≡ some us
      → names us ≡ names vms
  unfolding each_vm
  names-each_vm f i [] us e = ap names (sym (some-injective _ _ e))
  names-each_vm f i (vm ∷ vms) us e = elim (Option-cases (each_vcpu (f i) 0 vm.vcpus)) [
    | inl stuck ↦ absurd (ground (arith, e, stuck))
    | inr (cs, ec) ↦ elim (Option-cases (each_vm f (i + 1) vms)) [
      | inl stuck ↦ absurd (ground (arith, e, ec, stuck))
      | inr (ws, ew) ↦
          let same : record vm { vcpus = cs } ∷ ws ≡ us = some-injective _ _ (rw (ec, ew) at e) in
          ap names (sym same) ∙ ap (◌∷◌ vm.id) (names-each_vm f (i + 1) vms ws ew)
    ]
  ]

  names-AllSteady : (vms us : List (Vm F)) → AllSteady vms us → names us ≡ names vms
  names-AllSteady [] [] a = refl
  names-AllSteady [] (u ∷ us) a = absurd a
  names-AllSteady (v ∷ vms) [] a = absurd a
  names-AllSteady (v ∷ vms) (u ∷ us) ((_, _, e), a) = λ k. e k ∷ names-AllSteady vms us a k

  -- The names of the machines and of those that boot are all different.
  pub record AreApart (s : Shared F) : Type 0 where
    pub running : AreDistinct (names s.vms)
    pub starting : AreDistinct s.booting
    pub disjoint : (m : Text) → one_of s.booting m ≡ true → one_of (names s.vms) m ≡ false

  renamed-AreApart :
      (s : Shared F) (us : List (Vm F))
      → names us ≡ names s.vms
      → AreApart s
      → AreApart (record s { vms = us })
  renamed-AreApart s us e a = record {
    running = subst AreDistinct (sym e) a.running;
    starting = a.starting;
    disjoint = λ m b. ap (λ ns. one_of ns m) e ∙ a.disjoint m b;
  }

  begins-AreApart :
      (s : Shared F) (name : Text)
      → one_of s.booting name ≡ false
      → AreApart s
      → AreApart (record { vms = kill name s.vms; booting = name ∷ s.booting })
  unfolding one_of
  begins-AreApart s name alone a =
      let (apart, free) = kill-AreDistinct name s.vms a.running in
      record {
        running = apart;
        starting = (alone, a.starting);
        disjoint = λ m b. elim (Bool-cases (text_eq name m)) [
          | inl same ↦
              subst (λ x. one_of (names (kill name s.vms)) x ≡ false) ((text_eq_iff name m).0 same)
                (sym (has_vm-names name (kill name s.vms)) ∙ free)
          | inr other ↦ one_of-kill name m s.vms (a.disjoint m (rw (other) at b))
        ];
      }

  left-disjoint :
      (s : Shared F) (n : Text) (before behind : List Text)
      → s.booting ≡ before ++ n ∷ behind
      → AreApart s
      → (m : Text) → one_of (before ++ behind) m ≡ true
      → one_of (names s.vms) m ≡ false
  left-disjoint s n before behind e a m b =
      a.disjoint m (ap (λ ns. one_of ns m) e ∙ one_of-more before n behind m b)

  joins-AreApart :
      (s : Shared F) (vm : Vm F) (before behind : List Text)
      → s.booting ≡ before ++ vm.id ∷ behind
      → AreApart s
      → AreApart (record { vms = s.vms ++ vm ∷ []; booting = before ++ behind })
  joins-AreApart s vm before behind e a =
      let n = vm.id in
      let (rest, gone) = without-AreDistinct before n behind (subst AreDistinct e a.starting) in
      let free : one_of (names s.vms) n ≡ false =
        a.disjoint n (ap (λ ns. one_of ns n) e ∙ one_of-within before n behind) in
      record {
        running =
            subst AreDistinct (sym (names-append s.vms vm))
              (AreDistinct-append (names s.vms) n a.running free);
        starting = rest;
        disjoint = λ m b.
            ap (λ ns. one_of ns m) (names-append s.vms vm)
            ∙ one_of-append (names s.vms) n m (left-disjoint s n before behind e a m b)
                (elim (Bool-cases (text_eq n m)) [
                  | inl same ↦
                      let here =
                        subst (λ x. one_of (before ++ behind) x ≡ false) ((text_eq_iff n m).0 same)
                          gone in
                      absurd (ground (arith, b, here))
                  | inr other ↦ other
                ]);
      }

module _ {F : Floats} (nprocs : ℕ) (cfg : Config F) where
  Step-AreApart :
      (s t : Shared F) (step : Step nprocs cfg s t)
      → BeginsAlone nprocs cfg step
      → AreApart s
      → AreApart t
  unfolding update_vcpu_controllers update_vcpu_before_market
  Step-AreApart s _ (kills name) b a = record {
    running = (kill-AreDistinct name s.vms a.running).0;
    starting = a.starting;
    disjoint = λ m h. one_of-kill name m s.vms (a.disjoint m h);
  }
  Step-AreApart s _ resets b a = renamed-AreApart s (reset s.vms) (names-reset s.vms) a
  Step-AreApart s _ (begins name) b a = begins-AreApart s name b a
  Step-AreApart s _ (joins vm before behind e) b a = joins-AreApart s vm before behind e a
  Step-AreApart s _ (gives_up n before behind e) b a = record {
    running = a.running;
    starting = (without-AreDistinct before n behind (subst AreDistinct e a.starting)).0;
    disjoint = left-disjoint s n before behind e a;
  }
  Step-AreApart s _ (reads inp {us = us} e) b a =
      renamed-AreApart s us (names-each_vm _ 0 s.vms us e) a
  Step-AreApart s _ (publishes {us = us} e) b a =
      renamed-AreApart s us (names-each_vm _ 0 s.vms us e) a
  Step-AreApart s _ (trades {us = us} e) b a =
      renamed-AreApart s us (names-AllSteady s.vms us (run-AllSteady nprocs cfg s.vms us e)) a

  -- In whatever order the threads take their steps, if no provision begins while one of the same name boots:
  -- if the names of the machines and of those that boot are all different at first, they are after any number
  -- of steps.
  pub steps-AreApart :
      (s t : Shared F) (steps : Steps nprocs cfg s t)
      → AllBeginAlone nprocs cfg steps
      → AreApart s
      → AreApart t
  steps-AreApart s _ still b a = a
  steps-AreApart s t (later {u = u} before step) (bs, b) a =
      Step-AreApart u t step b (steps-AreApart s u before bs a)
