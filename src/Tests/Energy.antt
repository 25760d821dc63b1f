-- ===== src/Tests/Energy.antt =====
-- The energy counters at concrete readings.
use cgroup_monitor.Prelude.{
  ℕ, ◌≡◌, ◌<◌, ◌*◌, ◌+◌, ◌-◌, ◌%◌, Text, codes, true, List, [], ◌∷◌, arith,
}
use cgroup_monitor.Prelude.Words.{sub64, word}
use cgroup_monitor.Server.Rapl.{Rapl, readings}
use cgroup_monitor.Server.Rapl.Total.{readings_total}

-- Digits, cut to an `unsigned long`.
abbrev digits_from : ℕ → Text → ℕ
digits_from n [] = n % word
digits_from n (c ∷ cs) = digits_from (n * 10 + (c - 48)) cs

extract-lt : (n : ℕ) (content : Text) → digits_from n content < word
extract-lt n [] = omega arith
extract-lt n (c ∷ cs) = extract-lt (n * 10 + (c - 48)) cs

abbrev reader : Rapl
reader = record { enabled = true; value0 = 100; value1 = 7 }

abbrev contents : List (Text × Text)
contents = (codes "120", codes "45") ∷ (codes "170", codes "58") ∷ []

readings_total_example :
    let (s0, s1, r') = readings (digits_from 0) contents reader in
    (s0 ≡ sub64 r'.value0 100) × (s1 ≡ sub64 r'.value1 7)
readings_total_example =
    readings_total (digits_from 0) (extract-lt 0) contents reader (omega arith) (omega arith)
