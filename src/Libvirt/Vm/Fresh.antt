-- ===== src/Libvirt/Vm/Fresh.antt =====
-- The constructor of a machine: which configurations it accepts, and what it makes of them.
use cgroup_monitor.Prelude.{
  ℕ, zero, suc, ◌+◌, ◌<◌, ◌≡◌, refl, ap, ◌∙◌, ◌⊎◌, inl, inr, Bool, true, none, some, [], Text,
  codes, arith, length, get_elem?,
}
use cgroup_monitor.Prelude.Words.{ℤ, pos}
use cgroup_monitor.Floats.{Floats}
use cgroup_monitor.Libvirt.Vcpu.{Garbage, new_vcpu}
use cgroup_monitor.Libvirt.Vm.{Vm, controllers, new_vm, to_unsigned, rounds}
use cgroup_monitor.Utils.Config.{
  Value, long, float, str, bool, arr, dic, Dict, Outcome, returns, ◌>>=◌, lookup, int_of,
  float_from, text_in, is_number, get_dict, get_text, get_or_text, get_or_int, get_or_float,
  float_kind,
}

step :
    {A B : Type 0} {m : Outcome A} {a : A} (f : A → Outcome B) {r : Outcome B}
    → m ≡ returns a
    → f a ≡ r
    → (m >>= f) ≡ r
step f e h = ap (λ m. m >>= f) e ∙ h

module _ {F : Floats} where
  -- A name that is not there, or holds a number, or holds a text.
  abbrev pub IsNumeric : Text → Dict F → Type 0
  IsNumeric k d =
      (lookup k d ≡ none) ⊎ ((v : Value F) × (lookup k d ≡ some v) × (is_number v ≡ true))

  abbrev pub IsTextual : Text → Dict F → Type 0
  IsTextual k d = (lookup k d ≡ none) ⊎ ((s : Text) × (lookup k d ≡ some (str s)))

  -- A section `vm` that describes a machine.
  pub record Describes (inner : Dict F) : Type 0 where
    pub user : IsTextual (codes "user") inner
    pub disk : IsNumeric (codes "disk") inner
    pub vcpus : IsNumeric (codes "vcpus") inner
    pub memory : IsNumeric (codes "memory") inner
    pub frequency : IsNumeric (codes "frequency") inner
    pub memory_sla : IsNumeric (codes "memorySLA") inner
    pub ssh_key : IsTextual (codes "ssh_key") inner

  int_of-number : (v : Value F) → is_number v ≡ true → (n : ℤ) × (int_of v ≡ returns n)
  unfolding is_number int_of
  int_of-number (long n) h = (_, refl)
  int_of-number (float x) h = (_, refl)
  int_of-number (str s) h = cc
  int_of-number (bool b) h = cc
  int_of-number (arr a) h = cc
  int_of-number (dic d) h = cc

  float_from-number :
      (v : Value F) → is_number v ≡ true → (x : F.Float) × (float_from float_kind v ≡ returns x)
  unfolding is_number float_from
  float_from-number (long n) h = (_, refl)
  float_from-number (float x) h = (_, refl)
  float_from-number (str s) h = cc
  float_from-number (bool b) h = cc
  float_from-number (arr a) h = cc
  float_from-number (dic d) h = cc

  get_or_int-known :
      (k : Text) (m : ℤ) (d : Dict F) → IsNumeric k d → (n : ℤ) × (get_or_int k m d ≡ returns n)
  unfolding get_or_int
  get_or_int-known k m d (inl gone) = (m, ground (arith, gone))
  get_or_int-known k m d (inr (v, found, number)) =
      let (n, e) = int_of-number v number in (n, ground (arith, found, e))

  get_or_float-known :
      (k : Text) (y : F.Float) (d : Dict F)
      → IsNumeric k d
      → (x : F.Float) × (get_or_float k y d ≡ returns x)
  unfolding get_or_float
  get_or_float-known k y d (inl gone) = (y, ground (arith, gone))
  get_or_float-known k y d (inr (v, found, number)) =
      let (x, e) = float_from-number v number in (x, ground (arith, found, e))

  get_or_text-known :
      (k t : Text) (d : Dict F) → IsTextual k d → (s : Text) × (get_or_text k t d ≡ returns s)
  unfolding get_or_text text_in
  get_or_text-known k t d (inl gone) = (t, ground (arith, gone))
  get_or_text-known k t d (inr (s, found)) = (s, ground (arith, found))

  length-controllers :
      (u : ℕ → Garbage F) (v2 : Bool) (name : Text) (freq i n : ℕ)
      → length (controllers u v2 name freq i n) ≡ n
  unfolding controllers
  length-controllers u v2 name freq i zero = refl
  length-controllers u v2 name freq i (suc n) = ap suc (length-controllers u v2 name freq (i + 1) n)

  get_elem?-controllers :
      (u : ℕ → Garbage F) (v2 : Bool) (name : Text) (freq i n j k : ℕ)
      → j < n
      → k ≡ i + j
      → get_elem? (controllers u v2 name freq i n) j ≡ some (new_vcpu (u k) k name v2 freq 5)
  unfolding controllers
  get_elem?-controllers u v2 name freq i zero j k h e = absurd (omega arith)
  get_elem?-controllers u v2 name freq i (suc n) zero k h e =
      ap (λ (m : ℕ). some (new_vcpu (u m) m name v2 freq 5)) {y = k} (omega arith)
  get_elem?-controllers u v2 name freq i (suc n) (suc j) k h e =
      get_elem?-controllers u v2 name freq (i + 1) n j k (omega arith) (omega arith)

  -- A machine with an empty account and no domain, one fresh controller for each vCPU, numbered from 0.
  pub record IsFresh (u : ℕ → Garbage F) (v2 : Bool) (vm : Vm F) : Type 0 where
    pub no_domain : vm.dom ≡ none
    pub no_money : vm.money ≡ 0
    pub one_each : length vm.vcpus ≡ rounds vm.nb_vcpus
    pub numbered :
        (j : ℕ)
        → j < rounds vm.nb_vcpus
        → get_elem? vm.vcpus j ≡ some (new_vcpu (u j) j vm.id v2 (to_unsigned vm.freq) 5)

  -- The constructor returns a fresh machine for every configuration with a section `vm` that has a
  -- text as its name and as its image, and under the other names nothing or a value of the right
  -- kind. The machine has that name and that image.
  pub new_vm-IsFresh :
      (u : ℕ → Garbage F) (v2 : Bool) (cfg inner : Dict F) (id image : Text)
      → get_dict (codes "vm") cfg ≡ returns inner
      → get_text (codes "name") inner ≡ returns id
      → get_text (codes "image") inner ≡ returns image
      → Describes inner
      → (vm : Vm F) × (new_vm u v2 cfg ≡ returns vm)
        × (vm.id ≡ id)
        × (vm.qcow ≡ image)
        × IsFresh u v2 vm
  unfolding new_vm
  new_vm-IsFresh u v2 cfg inner id image section name file d =
      let (user, e1) = get_or_text-known (codes "user") (codes "phil") inner d.user in
      let (disk, e2) = get_or_int-known (codes "disk") (pos 10_000) inner d.disk in
      let (vcpus, e3) = get_or_int-known (codes "vcpus") (pos 1) inner d.vcpus in
      let (mem, e4) = get_or_int-known (codes "memory") (pos 2_048) inner d.memory in
      let (freq, e5) = get_or_int-known (codes "frequency") (pos 1_000) inner d.frequency in
      let (sla, e6) = get_or_float-known (codes "memorySLA") (F.float_lit 1 2) inner d.memory_sla in
      let (key, e7) = get_or_text-known (codes "ssh_key") [] inner d.ssh_key in
      let vm : Vm F = record {
        dom = none;
        id = id;
        user_name = user;
        pub_key = key;
        qcow = image;
        disk = disk;
        nb_vcpus = vcpus;
        mem = mem;
        freq = freq;
        memory_sla = sla;
        ip = [];
        mac = [];
        vcpus = controllers u v2 id (to_unsigned freq) 0 (rounds vcpus);
        money = 0;
      } in
      let made : new_vm u v2 cfg ≡ returns vm = step _ section (
        step _ name (
          step _ e1 (
            step _ file
              (step _ e2 (step _ e3 (step _ e4 (step _ e5 (step _ e6 (step _ e7 refl))))))))) in
      (
        vm,
        made,
        refl,
        refl,
        record {
          no_domain = refl;
          no_money = refl;
          one_each = length-controllers u v2 id (to_unsigned freq) 0 (rounds vcpus);
          numbered = λ j h.
              get_elem?-controllers u v2 id (to_unsigned freq) 0 (rounds vcpus) j j h (omega arith);
        },
      )
