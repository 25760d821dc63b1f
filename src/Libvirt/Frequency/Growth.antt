-- ===== src/Libvirt/Frequency/Growth.antt =====
-- How many frequencies are kept.
use cgroup_monitor.Prelude.{
  ℕ, zero, suc, ◌+◌, ◌*◌, ◌<◌, ◌≡◌, ◌≢◌, refl, ap, sym, subst, ◌∙◌, false, Option, none, some, List,
  [], ◌∷◌, ◌++◌, Text, if◌then◌else◌, length, length-append, ◌==◌, arith, Bool-cases, inl, inr,
}
use cgroup_monitor.Libvirt.Frequency.{
  Frequencies, frequency_path, add_processors, kept_or, read_files, with_freq, all_processors,
  read_cpu_frequency,
}

-- A path for each frequency.
abbrev pub IsPaired : ℕ → Frequencies → Type 0
IsPaired n fs = (length fs.cpu_path ≡ n) × (length fs.cpu_freq ≡ n)

add_processors-IsPaired :
    (n i m : ℕ) (fs : Frequencies) → IsPaired m fs → IsPaired (m + n) (add_processors n i fs)
unfolding add_processors
add_processors-IsPaired zero i m fs (p, f) = (omega arith, omega arith)
add_processors-IsPaired (suc n) i m fs (p, f) =
    let (p', f') =
      add_processors-IsPaired n (i + 1) (m + 1)
        record { cpu_path = fs.cpu_path ++ frequency_path i ∷ []; cpu_freq = fs.cpu_freq ++ 0 ∷ [] }
        (
          omega (arith, p, length-append fs.cpu_path (frequency_path i ∷ [])),
          omega (arith, f, length-append fs.cpu_freq (0 ∷ [])),
        ) in
    (omega (arith, p'), omega (arith, f'))

read_files-length :
    (content : Text → Option ℕ) (paths : List Text) (freq : List ℕ)
    → length paths ≡ length freq
    → (freq' : List ℕ) × (read_files content paths freq ≡ some freq') × (length freq' ≡ length freq)
unfolding read_files
read_files-length content paths [] e = ([], refl, refl)
read_files-length content [] (f ∷ fs) e = absurd (omega arith)
read_files-length content (p ∷ ps) (f ∷ fs) e =
    let (more, r, s) = read_files-length content ps fs (omega arith) in
    (kept_or f (content p) ∷ more, rw r refl, ap suc s)

abbrev pub grown : (nprocs m : ℕ) → ℕ
grown nprocs m = if m == nprocs then m else m + nprocs

all_processors-IsPaired :
    (nprocs m : ℕ) (fs : Frequencies)
    → IsPaired m fs
    → IsPaired (grown nprocs m) (all_processors nprocs fs)
all_processors-IsPaired nprocs m fs (p, f) = rw p (elim (Bool-cases (m == nprocs)) [
  | inl same ↦ rw same (p, f)
  | inr other ↦ rw other (add_processors-IsPaired nprocs 0 m fs (p, f))
])

reads-IsPaired :
    (nprocs m : ℕ) (content : Text → Option ℕ) (fs : Frequencies)
    → IsPaired m fs
    → (fs' : Frequencies) × (read_cpu_frequency nprocs content fs ≡ some fs')
      × IsPaired (grown nprocs m) fs'
unfolding read_cpu_frequency
reads-IsPaired nprocs m content fs h =
    let all = all_processors nprocs fs in
    let (p, f) = all_processors-IsPaired nprocs m fs h in
    let (freq, r, s) = read_files-length content all.cpu_path all.cpu_freq (p ∙ sym f) in
    (record all { cpu_freq = freq }, ap (with_freq all) r, (p, s ∙ f))

abbrev pub then_read : (nprocs : ℕ) → (Text → Option ℕ) → Option Frequencies → Option Frequencies
then_read nprocs content none = none
then_read nprocs content (some fs) = read_cpu_frequency nprocs content fs

-- Any number of readings, the latest first.
abbrev pub read_many : ℕ → List (Text → Option ℕ) → Frequencies → Option Frequencies
read_many nprocs [] fs = some fs
read_many nprocs (content ∷ more) fs = then_read nprocs content (read_many nprocs more fs)

-- The number of frequencies after k readings.
abbrev pub number_after : (nprocs m k : ℕ) → ℕ
number_after nprocs m zero = m
number_after nprocs m (suc k) = grown nprocs (number_after nprocs m k)

read_many-IsPaired :
    (nprocs m : ℕ) (contents : List (Text → Option ℕ)) (fs : Frequencies)
    → IsPaired m fs
    → (fs' : Frequencies) × (read_many nprocs contents fs ≡ some fs')
      × IsPaired (number_after nprocs m (length contents)) fs'
read_many-IsPaired nprocs m [] fs h = (fs, refl, h)
read_many-IsPaired nprocs m (content ∷ more) fs h =
    let (fs1, e, h1) = read_many-IsPaired nprocs m more fs h in
    let (fs2, e', h2) = reads-IsPaired nprocs _ content fs1 h1 in
    (fs2, ap (then_read nprocs content) e ∙ e', h2)

number-constant : (n k : ℕ) → number_after n n k ≡ n
number-constant n zero = refl
number-constant n (suc k) = ground (arith, number-constant n k)

number-apart : (n m k : ℕ) → 0 < m → m ≢ n → ((m + k * n) == n) ≡ false
number-apart n m zero h other = elim (Bool-cases ((m + 0 * n) == n)) [
  | inl same ↦ absurd (other (ground (arith, same)))
  | inr apart ↦ apart
]
number-apart n m (suc k) h other = elim (Bool-cases ((m + suc k * n) == n)) [
  | inl same ↦ let e : m + suc k * n ≡ n = ground (arith, same) in absurd (omega (arith, e, h))
  | inr apart ↦ apart
]

number-grows : (n m k : ℕ) → 0 < m → m ≢ n → number_after n m k ≡ m + k * n
number-grows n m zero h other = omega arith
number-grows n m (suc k) h other =
    rw (number-grows n m k h other, number-apart n m k h other) (omega arith)

number-settled : (n m k : ℕ) → 0 < m → number_after n m k ≡ (if m == n then m else m + k * n)
number-settled n m k h = elim (Bool-cases (m == n)) [
  | inl same ↦
      let e : m ≡ n = ground (arith, same) in
      rw same (subst (λ x. number_after x m k ≡ m) e (number-constant m k))
  | inr other ↦ rw other (number-grows n m k h (λ e. absurd (ground (arith, e, other))))
]

-- From a state with some frequencies and a path for each, any number of readings succeeds, with no read out
-- of bounds. While there are as many processors as frequencies, the frequencies keep their number. If the
-- number of processors is another, each reading adds all processors again.
pub read_many-grow :
    (nprocs m : ℕ) (contents : List (Text → Option ℕ)) (fs : Frequencies)
    → IsPaired m fs
    → 0 < m
    → (fs' : Frequencies) × (read_many nprocs contents fs ≡ some fs')
      × IsPaired (if m == nprocs then m else m + length contents * nprocs) fs'
read_many-grow nprocs m contents fs h p =
    let (fs', e, h') = read_many-IsPaired nprocs m contents fs h in
    (fs', e, subst (λ k. IsPaired k fs') (number-settled nprocs m (length contents) p) h')
