-- ===== src/Libvirt/Frequency.antt =====
-- src/monitor/libvirt/client.cc: the frequencies of the processors.
pub mod Growth
use cgroup_monitor.Prelude.{
  ℕ, zero, suc, ◌+◌, Bool, Option, none, some, List, [], ◌∷◌, ◌++◌, Text, codes, if◌then◌else◌,
  length, ◌==◌,
}
use cgroup_monitor.Utils.Decimal.{decimal}

pub record Frequencies : Type 0 where
  pub cpu_path : List Text
  pub cpu_freq : List ℕ

unfoldable pub frequency_path : ℕ → Text
unfolding decimal
frequency_path i =
    codes "/sys/devices/system/cpu/cpu" ++ decimal i ++ codes "/cpufreq/scaling_cur_freq"

-- The loop that adds the processors from the i-th on, n of them.
unfoldable pub add_processors : (n i : ℕ) → Frequencies → Frequencies
unfolding frequency_path
add_processors zero i fs = fs
add_processors (suc n) i fs =
    add_processors n (i + 1)
      record { cpu_path = fs.cpu_path ++ frequency_path i ∷ []; cpu_freq = fs.cpu_freq ++ 0 ∷ [] }

abbrev pub kept_or : ℕ → Option ℕ → ℕ
kept_or old none = old
kept_or old (some new) = new

-- The loop over `_cpuFreq`. A file that cannot be read leaves the old value; `none` is a read out of bounds.
unfoldable pub read_files : (Text → Option ℕ) → List Text → List ℕ → Option (List ℕ)
read_files content paths [] = some []
read_files content [] (f ∷ fs) = none
read_files content (p ∷ ps) (f ∷ fs) = elim (read_files content ps fs) [
  | none ↦ none
  | some more ↦ some (kept_or f (content p) ∷ more)
]

abbrev pub with_freq : Frequencies → Option (List ℕ) → Option Frequencies
with_freq fs none = none
with_freq fs (some freq) = some (record fs { cpu_freq = freq })

abbrev pub all_processors : ℕ → Frequencies → Frequencies
all_processors nprocs fs = if length fs.cpu_path == nprocs then fs else add_processors nprocs 0 fs

unfoldable pub read_cpu_frequency :
    (nprocs : ℕ) → (Text → Option ℕ) → Frequencies → Option Frequencies
unfolding add_processors read_files
read_cpu_frequency nprocs content fs =
    let fs' = all_processors nprocs fs in
    with_freq fs' (read_files content fs'.cpu_path fs'.cpu_freq)
