-- ===== src/Server/Threads.antt =====
-- The threads of src/server/daemon.cc: the server's, one more for each provision, and the control loop
-- share the list of running machines. A step is one operation of a thread on that list, taken whole; the
-- threads take their steps in any order. A provision has two: the kill that it begins with, and the
-- `push_back` behind the boot, with any steps of the others between them.
pub mod Names
use cgroup_monitor.Prelude.{ℕ, ◌≡◌, false, Option, some, List, [], ◌∷◌, ◌++◌, Text}
use cgroup_monitor.Floats.{Floats}
use cgroup_monitor.Libvirt.Registry.{kill}
use cgroup_monitor.Libvirt.Vm.{Vm}
use cgroup_monitor.Server.Control.{Input, update_vcpu_controllers, update_vcpu_before_market}
use cgroup_monitor.Server.Market.Round.{run, reset}
use cgroup_monitor.Server.Market.Sale.{Config}
use cgroup_monitor.Utils.Tokenizer.{one_of}

-- The machines, and the names of those that boot.
pub record Shared (F : Floats) : Type 0 where
  pub vms : List (Vm F)
  pub booting : List Text

module _ {F : Floats} (nprocs : ℕ) (cfg : Config F) where
  pub data Step (s : Shared F) : Shared F → Type 0 where
    -- The handlers.
    kills : (name : Text) → Step s (record s { vms = kill name s.vms })
    resets : Step s (record s { vms = reset s.vms })
    -- A provision begins, and ends with the machine or with an error.
    begins : (name : Text) → Step s (record { vms = kill name s.vms; booting = name ∷ s.booting })
    joins :
        (vm : Vm F) (before behind : List Text)
        → s.booting ≡ before ++ vm.id ∷ behind
        → Step s (record { vms = s.vms ++ vm ∷ []; booting = before ++ behind })
    gives_up :
        (name : Text) (before behind : List Text)
        → s.booting ≡ before ++ name ∷ behind
        → Step s (record s { booting = before ++ behind })
    -- The control loop.
    reads :
        (inp : Input F) {us : List (Vm F)}
        → update_vcpu_controllers inp s.vms ≡ some us
        → Step s (record s { vms = us })
    publishes :
        {us : List (Vm F)}
        → update_vcpu_before_market s.vms ≡ some us
        → Step s (record s { vms = us })
    trades : {us : List (Vm F)} → run nprocs cfg s.vms ≡ some us → Step s (record s { vms = us })

  -- Any number of steps.
  pub data Steps (s : Shared F) : Shared F → Type 0 where
    still : Steps s s
    later : {u t : Shared F} → Steps s u → Step u t → Steps s t

  -- No provision begins while one of the same name boots.
  abbrev pub BeginsAlone : {s t : Shared F} → Step s t → Type 0
  BeginsAlone {s = s} (begins name) = one_of s.booting name ≡ false
  BeginsAlone other = Unit

  abbrev pub AllBeginAlone : {s t : Shared F} → Steps s t → Type 0
  AllBeginAlone still = Unit
  AllBeginAlone (later before step) = AllBeginAlone before × BeginsAlone step
