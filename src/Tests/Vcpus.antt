-- ===== src/Tests/Vcpus.antt =====
-- The controller of a vCPU on small inputs.
use cgroup_monitor.Prelude.{
  ◌+◌, ◌-◌, ◌^◌, ◌≡◌, refl, List, [], ◌∷◌, Option, none, some, arith, length, ◌==◌, if◌then◌else◌,
  codes,
}
use cgroup_monitor.Prelude.Words.{word, add64, sub64}
use cgroup_monitor.Floats.{fixed, Fixed, plus}
use cgroup_monitor.Libvirt.Cgroup.{read_usage, read_cpu}
use cgroup_monitor.Libvirt.Vcpu.{
  Vcpu, Sample, update, update_before_market, add_to_history, percentage_consumption, slope_of,
}
use cgroup_monitor.Libvirt.Vcpu.History.{last_of, add_to_history-last_of}
use cgroup_monitor.Libvirt.Vcpu.Usage.{
  updates, final_usage, sum_consumption-updates, consumption_round, update_wrapped,
}
use cgroup_monitor.Tests.Samples.{busy, group}

abbrev readings : List (Sample fixed)
readings =
    record { cpu = 0; counter = 2500; elapsed = plus 500_000 }
    ∷ record { cpu = 1; counter = 4000; elapsed = plus 500_000 }
    ∷ []

or_busy : Option (Vcpu fixed) → Vcpu fixed
or_busy none = busy
or_busy (some v) = v

after_readings : Vcpu fixed
unfolding or_busy updates update
after_readings = or_busy (updates (2000 ∷ 2400 ∷ []) readings busy)

after_round : Vcpu fixed
unfolding after_readings update_before_market
after_round = or_busy (update_before_market after_readings)

read : updates (2000 ∷ 2400 ∷ []) readings busy ≡ some after_readings
unfolding after_readings updates
read = refl

published : update_before_market after_readings ≡ some after_round
unfolding after_round
published = refl

sum_consumption-updates_example :
    after_readings.sum_consumption ≡ add64 0 (sub64 (final_usage group 1000 readings) 1000)
sum_consumption-updates_example =
    sum_consumption-updates (2000 ∷ 2400 ∷ []) readings busy after_readings (omega arith)
      (omega arith) read

consumption_round_example : after_round.consumption ≡ final_usage group 1000 readings - 1000
consumption_round_example =
    consumption_round (2000 ∷ 2400 ∷ []) readings busy after_readings after_round refl
      (unfold read_usage in omega arith) (omega arith) read published

abbrev overflowing : Sample fixed
overflowing = record { cpu = 0; counter = 2 ^ 32 + 500; elapsed = plus 1_000_000 }

after_overflow : Vcpu fixed
unfolding or_busy update
after_overflow = or_busy (update (2000 ∷ []) overflowing busy)

overflowed : update (2000 ∷ []) overflowing busy ≡ some after_overflow
unfolding after_overflow
overflowed = refl

-- 4294966796 microseconds are counted as 2 ^ 64 - 500.
update_wrapped_example : after_overflow.sum_consumption ≡ 2 ^ 32 + 500 - 1000 + (word - 2 ^ 32)
update_wrapped_example =
    update_wrapped (2000 ∷ []) overflowing busy after_overflow refl refl (omega arith) (omega arith)
      (omega arith) overflowed

add_to_history-last_of_example :
    let log : List Fixed = percentage_consumption busy ∷ [] in
    ((add_to_history busy).history ≡ last_of 2 log)
    × ((add_to_history busy).slope
        ≡ (if length (last_of 2 log) == 2 then slope_of fixed (last_of 2 log) else busy.slope))
add_to_history-last_of_example = add_to_history-last_of busy [] refl

-- The 39th blank of a line is found, and a short line is read past its end.
second_blank : read_cpu length (some (codes "a b")) ≡ none
unfolding read_cpu
second_blank = refl
