-- ===== src/Server/Vms/Sessions/Meaning.antt =====
-- A session over one connection, and what each command means.
use cgroup_monitor.Prelude.{
  ◌+◌, ◌*◌, ◌^◌, ◌<◌, ◌≤◌, length, Option, none, some, [], codes, if◌then◌else◌,
}
use cgroup_monitor.Prelude.Words.{ℤ, pos, negsuc}
use cgroup_monitor.Floats.{Floats}
use cgroup_monitor.Client.{
  Report, killed, does_not_exist, nat_enabled, counters_reset, started_at, vm_error, Command,
  kill_vm, provision_vm, nat_vm, reset_counters, request, response,
}
use cgroup_monitor.Libvirt.Registry.{has_vm, get_vm, kill, provision}
use cgroup_monitor.Libvirt.Vm.{Vm, new_vm}
use cgroup_monitor.Net.Addr.{SockAddr}
use cgroup_monitor.Net.Stream.{TcpStream}
use cgroup_monitor.Net.Stream.Delivery.{connected}
use cgroup_monitor.Server.Vms.{
  Daemon, Served, serves, crashes, Host, Booted, up, refused, ended, waiting, boot, treat, open_nat,
  reset_market_counters, name_of,
}
use cgroup_monitor.Server.Vms.Sessions.{IsSent}
use cgroup_monitor.Utils.Config.{Dict, Outcome, returns, throws, get_dict}
use cgroup_monitor.Utils.Toml.{Parsed, done, parse}

module _ {F : Floats} (h : Host F) (a : SockAddr) where
  abbrev pub reply_to : Command → Option (Served F × TcpStream) → Option (Served F × Report)
  reply_to cmd none = none
  reply_to cmd (some (served, s)) = elim (response cmd (connected a s.outgoing [])) [
    | none ↦ none
    | some (report, s') ↦ some (served, report)
  ]

  abbrev pub served_to :
      Daemon F → Command → Option ((Unit {0}) × TcpStream) → Option (Served F × Report)
  served_to d cmd none = none
  served_to d cmd (some (u, c)) = reply_to cmd (treat h d (connected a c.outgoing []))

  -- The daemon and the client over one connection.
  unfoldable pub session : Daemon F → Command → Option (Served F × Report)
  session d cmd = served_to d cmd (request cmd (connected a [] []))

module _ {F : Floats} (h : Host F) where
  abbrev pub booted : Outcome (Vm F) → Booted F
  booted (throws e) = refused
  booted (returns vm) = boot h vm

  -- The machine that a configuration brings up: it has a section `vm` with a name that is free, it
  -- describes a machine, and the machine boots.
  abbrev pub machine_of : Daemon F → Dict F → Booted F
  machine_of d cfg = elim (name_of h (get_dict (codes "vm") cfg)) [
    | throws e ↦ refused
    | returns name ↦ if has_vm name d.vms then refused else booted (new_vm h.garbage h.v2 cfg)
  ]

  -- A text that is no configuration ends the daemon.
  abbrev pub brought_up : Daemon F → Parsed (Dict F) → Booted F
  brought_up d (done cfg t) = machine_of d cfg
  brought_up d other = ended

  abbrev pub started : Daemon F → Booted F → Option (Served F × Report)
  started d (up vm) = some (serves (record d { vms = provision vm d.vms }), started_at vm.ip)
  started d refused = some (serves d, vm_error 1)
  started d ended = some (crashes, vm_error 0)
  started d waiting = none

  abbrev pub nat_spec : Daemon F → ℤ → ℤ → Option (Vm F) → Served F × Report
  nat_spec d host guest none = (serves d, does_not_exist)
  nat_spec d host guest (some vm) = (serves (open_nat vm host guest d), nat_enabled)

  -- What each command means to the daemon and to its user; `none` if the machine never comes up.
  abbrev pub meaning : Daemon F → Command → Option (Served F × Report)
  meaning d (kill_vm name) =
      if has_vm name d.vms
      then some (serves (record d { vms = kill name d.vms }), killed)
      else some (serves d, does_not_exist)
  meaning d (provision_vm file) = started d (brought_up d (parse h.numbers h.fuel file))
  meaning d (nat_vm name host guest) = some (nat_spec d host guest (get_vm name d.vms))
  meaning d reset_counters = some (serves (reset_market_counters d), counters_reset)

abbrev pub IsInt : ℤ → Type 0
IsInt (pos n) = n < 2 ^ 31
IsInt (negsuc n) = n < 2 ^ 31

-- What is sent and received fits the format: texts with no zero byte, ports that are an `int`, a file
-- below 2 ^ 31 - 1 bytes with fuel for its parser, and a machine whose address can be sent, if it comes up.
module _ {F : Floats} (h : Host F) (d : Daemon F) where
  abbrev pub BootsSent : Booted F → Type 0
  BootsSent (up vm) = IsSent vm.ip
  BootsSent other = Unit

  abbrev pub IsRequest : Command → Type 0
  IsRequest (kill_vm name) = IsSent name
  IsRequest (provision_vm file) =
      IsSent file
      × (length file + 1 < 2 ^ 31)
      × (2 * length file + 4 ≤ h.fuel)
      × BootsSent (brought_up h d (parse h.numbers h.fuel file))
  IsRequest (nat_vm name host guest) = IsSent name × IsInt host × IsInt guest
  IsRequest reset_counters = Unit
