-- ===== src/Tests/Control.antt =====
-- The control loop and a range on small inputs.
use cgroup_monitor.Prelude.{◌-◌, ◌≡◌, refl, true, some, [], ◌∷◌, arith, leb, if◌then◌else◌}
use cgroup_monitor.Floats.{fixed, plus}
use cgroup_monitor.Server.Control.{Controller, Input, frames}
use cgroup_monitor.Server.Control.Frames.{IsRunning, IsReadable, frames_total}
use cgroup_monitor.Server.Market.Sale.{nominal_cycles}
use cgroup_monitor.Server.Market.Round.Steady.{AllSteady}
use cgroup_monitor.Server.Market.Round.SteadyRound.{run-AllSteady}
use cgroup_monitor.Tests.Market.{after_round, ran}
use cgroup_monitor.Tests.Samples.{host, config}
use cgroup_monitor.Utils.Range.{elements}
use cgroup_monitor.Utils.Range.Elements.{upward, downward, elements_lem}

abbrev pub controller : Controller fixed
controller = record { market_enabled = true; config = config; i = 0; vms = host }

abbrev pub input : Input fixed
input = record {
  freq = 2000 ∷ [];
  sample = λ i j. record { cpu = 0; counter = 500_000; elapsed = plus 1_000_000 };
}

controller-IsRunning : IsRunning controller
controller-IsRunning =
    unfold nominal_cycles in
    (omega arith, omega arith, ((omega arith, (omega arith, (omega arith, tt))), tt))

input-IsReadable : IsReadable input
input-IsReadable i j = (2000, refl)

frames_total_example :
    (d : Controller fixed) × (frames 1 (input ∷ input ∷ input ∷ []) controller ≡ some d)
    × IsRunning d
frames_total_example =
    frames_total 1 (input ∷ input ∷ input ∷ []) controller controller-IsRunning
      (input-IsReadable, (input-IsReadable, (input-IsReadable, tt)))

run-AllSteady_example : AllSteady host after_round
run-AllSteady_example = run-AllSteady 1 config host after_round ran

elements_lem_example :
    elements 10 (record { beg = 7; end = 3 })
    ≡ some (if leb 7 3 then upward (3 - 7) 7 else downward (7 - 3) 7)
elements_lem_example = elements_lem 10 7 3 (omega arith) (omega arith) (omega arith)

counted_down : elements 10 (record { beg = 7; end = 3 }) ≡ some (7 ∷ 6 ∷ 5 ∷ 4 ∷ [])
unfolding elements
counted_down = refl
