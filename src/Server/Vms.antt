-- ===== src/Server/Vms.antt =====
-- src/server/vm.{hh,cc}: the handlers of the requests, one connection at a time. What the daemon shares
-- between them is a record; what the host answers to the boot of a machine and the parser's numbers are
-- parameters.
pub mod Sessions
pub mod Closed
pub mod Distinct
use cgroup_monitor.Prelude.{
  ℕ, ◌^◌, ◌%◌, Bool, true, false, Option, none, some, List, [], ◌∷◌, Text, codes, text_eq, ◌==◌,
  if◌then◌else◌, length,
}
use cgroup_monitor.Prelude.Words.{ℤ, pos}
use cgroup_monitor.Floats.{Floats}
use cgroup_monitor.Libvirt.Actions.{Run, did, exits, waits}
use cgroup_monitor.Libvirt.Cgroup.Tree.{Files}
use cgroup_monitor.Libvirt.Provision.{Keys}
use cgroup_monitor.Libvirt.Provision.Booting.{Answers, provision_machine}
use cgroup_monitor.Libvirt.Proto.{
  provision_code, kill_code, ok_code, err_code, ip_code, nat_code, reset_code, not_found_code,
  protocol_code,
}
use cgroup_monitor.Libvirt.Vcpu.{Garbage}
use cgroup_monitor.Libvirt.Vm.{Vm, new_vm}
use cgroup_monitor.Libvirt.Registry.{has_vm, get_vm, kill, provision}
use cgroup_monitor.Net.Stream.{TcpStream, send_int, send, receive_int, receive, close}
use cgroup_monitor.Server.Market.Round.{reset}
use cgroup_monitor.Utils.Config.{Dict, Outcome, returns, throws, get_dict, get_text, to_int}
use cgroup_monitor.Utils.Toml.{Numbers, Parsed, done, fails, no_number, no_location, no_fuel, parse}

-- One rule that `openNat` gives to iptables, in front of the others.
pub data Chain : Type 0 where
  prerouting output : Chain

pub record NatRule : Type 0 where
  pub chain : Chain
  pub host : ℤ
  pub ip : Text
  pub guest : ℤ

pub record Daemon (F : Floats) : Type 0 where
  pub vms : List (Vm F)
  pub market_enabled : Bool
  pub rules : List NatRule

-- `crashes` is an exception that leaves the thread, or an `exit`: both end the daemon.
pub data Served (F : Floats) : Type 0 where
  serves : Daemon F → Served F
  crashes : Served F

-- A part of a handler; `none` is undefined behaviour, or a wait that does not end.
abbrev pub Handler : Type 0 → Type 0
Handler A = TcpStream → Option (A × TcpStream)

infixl 5 ◌>>=◌ ◌>>◌
abbrev pub ◌>>=◌ : {A B : Type 0} → Handler A → (A → Handler B) → Handler B
(m >>= f) s = elim (m s) [ none ↦ none | some (a, s') ↦ f a s' ]

abbrev pub ◌>>◌ : {B : Type 0} → Handler (Unit {0}) → Handler B → Handler B
m >> k = m >>= λ _. k

abbrev pub give : {A : Type 0} → A → Handler A
give a s = some (a, s)

abbrev pub undefined : {A : Type 0} → Handler A
undefined s = none

abbrev pub get_number : Handler ℕ
get_number s = some (receive_int s)

abbrev pub put_number : ℕ → Handler (Unit {0})
put_number i s = some (tt, (send_int i s).1)

abbrev pub put : Text → Handler (Unit {0})
put msg s = some (tt, (send msg s).1)

abbrev pub hang_up : Handler (Unit {0})
hang_up s = some (tt, close s)

-- What the handlers receive first: a length, and a text of it.
unfoldable pub get_text_of_length : Handler Text
get_text_of_length = do len ← get_number; receive len

module _ {F : Floats} where
  -- `openNat`, for a machine that has an address.
  unfoldable pub open_nat : Vm F → ℤ → ℤ → Daemon F → Daemon F
  open_nat vm host guest d = if text_eq vm.ip [] then d else record d {
    rules =
        record { chain = output; host = host; ip = vm.ip; guest = guest }
        ∷ record { chain = prerouting; host = host; ip = vm.ip; guest = guest }
        ∷ d.rules;
  }

  -- `resetMarketCounters` of src/server/control.cc.
  unfoldable pub reset_market_counters : Daemon F → Daemon F
  unfolding reset
  reset_market_counters d = record d { vms = if d.market_enabled then reset d.vms else d.vms }

  unfoldable pub refuse : Daemon F → Handler (Served F)
  refuse d = do put_number err_code; put_number not_found_code; hang_up; give (serves d)

  unfoldable pub confirm : Daemon F → Handler (Served F)
  confirm d = do put_number ok_code; hang_up; give (serves d)

  unfoldable pub answer_ip : Vm F → Daemon F → Handler (Served F)
  answer_ip vm d = do
    put_number ip_code
    put_number (length vm.ip)
    put vm.ip
    hang_up
    give (serves d)

  abbrev pub kill_named : Daemon F → Text → Handler (Served F)
  kill_named d name =
      if has_vm name d.vms then confirm (record d { vms = kill name d.vms }) else refuse d

  unfoldable pub treat_kill : Daemon F → Handler (Served F)
  treat_kill d = do name ← get_text_of_length; kill_named d name

  abbrev pub ip_of_found : Daemon F → Option (Vm F) → Handler (Served F)
  ip_of_found d none = refuse d
  ip_of_found d (some vm) = answer_ip vm d

  unfoldable pub treat_ip : Daemon F → Handler (Served F)
  treat_ip d = do
    name ← get_text_of_length
    if has_vm name d.vms then ip_of_found d (get_vm name d.vms) else refuse d

  abbrev pub nat_of_found : Daemon F → Option (Vm F) → Handler (Served F)
  nat_of_found d none = refuse d
  nat_of_found d (some vm) = do
    host ← get_number
    guest ← get_number
    confirm (open_nat vm (to_int (pos host)) (to_int (pos guest)) d)

  abbrev pub nat_named : Daemon F → Text → Handler (Served F)
  nat_named d name = if has_vm name d.vms then nat_of_found d (get_vm name d.vms) else refuse d

  unfoldable pub treat_nat : Daemon F → Handler (Served F)
  treat_nat d = do name ← get_text_of_length; nat_named d name

  unfoldable pub treat_reset_counters : Daemon F → Handler (Served F)
  treat_reset_counters d = confirm (reset_market_counters d)

-- What the daemon takes from outside: the numbers of the parser, whether the control groups are of
-- version 2, the memory of new controllers, the keys and the path of the client, and what the host answers while a
-- machine boots.
pub record Host (F : Floats) : Type 0 where
  pub numbers : Numbers F
  pub fuel : ℕ
  pub garbage : ℕ → Garbage F
  pub v2 : Bool
  pub keys : Keys
  pub path : Text
  pub answers : Vm F → Answers

-- How a `provision` ends: with the machine, by a `LibvirtError`, by the end of the daemon, or not at all.
pub data Booted (F : Floats) : Type 0 where
  up : Vm F → Booted F
  refused ended waiting : Booted F

abbrev pub booted_by : {F : Floats} → Run (Vm F × List Files) → Booted F
booted_by (did acts (vm, files)) = up vm
booted_by (exits acts) = ended
booted_by (waits acts) = waiting
booted_by other = refused

module _ {F : Floats} (h : Host F) where
  -- `provision` for a machine whose name `treatProvision` has found free, so that none is killed first.
  unfoldable pub boot : Vm F → Booted F
  unfolding provision_machine
  boot vm = booted_by (provision_machine (h.answers vm) h.keys h.path none vm)

  abbrev pub boot_machine : Daemon F → Booted F → Handler (Served F)
  boot_machine d (up vm) = answer_ip vm (record d { vms = provision vm d.vms })
  boot_machine d refused = refuse d
  boot_machine d ended = give crashes
  boot_machine d waiting = undefined

  abbrev pub make_machine : Daemon F → Outcome (Vm F) → Handler (Served F)
  make_machine d (returns vm) = boot_machine d (boot vm)
  make_machine d (throws e) = refuse d

  abbrev pub name_of : Outcome (Dict F) → Outcome Text
  name_of (returns inner) = get_text (codes "name") inner
  name_of (throws e) = throws e

  abbrev pub provision_named : Daemon F → Dict F → Outcome Text → Handler (Served F)
  provision_named d cfg (returns name) =
      if has_vm name d.vms then refuse d else make_machine d (new_vm h.garbage h.v2 cfg)
  provision_named d cfg (throws e) = refuse d

  -- The parser runs outside the `try` block.
  abbrev pub provision_parsed : Daemon F → Parsed (Dict F) → Handler (Served F)
  provision_parsed d (done cfg t) = provision_named d cfg (name_of (get_dict (codes "vm") cfg))
  provision_parsed d (fails e) = give crashes
  provision_parsed d no_number = give crashes
  provision_parsed d no_location = undefined
  provision_parsed d no_fuel = undefined

  abbrev pub provision_file : Daemon F → Text → Handler (Served F)
  provision_file d file = provision_parsed d (parse h.numbers h.fuel file)

  unfoldable pub treat_provision : Daemon F → Handler (Served F)
  treat_provision d = do file ← get_text_of_length; provision_file d file

  unfoldable pub dispatch : Daemon F → ℕ → Handler (Served F)
  unfolding treat_provision treat_kill treat_ip treat_nat treat_reset_counters
  dispatch d prot =
      if prot == provision_code
      then treat_provision d
      else (if prot == kill_code
          then treat_kill d
          else (if prot == ip_code
              then treat_ip d
              else (if prot == nat_code
                  then treat_nat d
                  else (if prot == reset_code
                      then treat_reset_counters d
                      else (do put_number err_code; put_number protocol_code; give (serves d))))))

  -- One turn of `acceptingLoop`, with the thread that it starts for a provision.
  unfoldable pub treat : Daemon F → Handler (Served F)
  treat d = do prot ← get_number; dispatch d prot
