-- ===== src/Tests/Frequencies.antt =====
-- The frequencies of the processors, when one of them goes offline.
use cgroup_monitor.Prelude.{ℕ, ◌≡◌, refl, Option, some, [], ◌∷◌, Text, codes, arith}
use cgroup_monitor.Libvirt.Frequency.{Frequencies}
use cgroup_monitor.Libvirt.Frequency.Growth.{IsPaired, read_many, read_many-grow}

abbrev content : Text → Option ℕ
content path = some 2_400_000

abbrev two : Frequencies
two = record {
  cpu_path = codes "/sys/cpu0" ∷ codes "/sys/cpu1" ∷ [];
  cpu_freq = 2_100_000 ∷ 2_200_000 ∷ [];
}

-- Two readings on one processor leave four frequencies.
read_many-grow_example :
    (fs' : Frequencies) × (read_many 1 (content ∷ content ∷ []) two ≡ some fs') × IsPaired 4 fs'
read_many-grow_example = read_many-grow 1 2 (content ∷ content ∷ []) two (refl, refl) (omega arith)
