-- ===== src/Client.antt =====
-- src/client/main.cc: the requests of the client, and what it makes of the replies. What it prints is a
-- value of `Report`.
use cgroup_monitor.Prelude.{ℕ, Text, ◌==◌, if◌then◌else◌, length}
use cgroup_monitor.Prelude.Words.{ℤ}
use cgroup_monitor.Libvirt.Proto.{provision_code, kill_code, ok_code, ip_code, nat_code, reset_code}
use cgroup_monitor.Libvirt.Vm.{to_unsigned}
use cgroup_monitor.Server.Vms.{
  Handler, ◌>>=◌, ◌>>◌, give, get_number, put_number, put, get_text_of_length,
}

pub data Report : Type 0 where
  killed does_not_exist nat_enabled counters_reset reset_failed : Report
  started_at : Text → Report
  vm_error : ℕ → Report

unfoldable pub send_kill : Text → Handler (Unit {0})
send_kill name = do put_number kill_code; put_number (length name); put name

unfoldable pub send_provision : Text → Handler (Unit {0})
send_provision file = do put_number provision_code; put_number (length file); put file

unfoldable pub send_nat : Text → ℤ → ℤ → Handler (Unit {0})
send_nat name host guest = do
  put_number nat_code
  put_number (length name)
  put name
  put_number (to_unsigned host)
  put_number (to_unsigned guest)

unfoldable pub send_reset : Handler (Unit {0})
send_reset = put_number reset_code

-- The reply, with what is printed for an `OK` and for any other.
unfoldable pub confirmed : Report → Report → Handler Report
confirmed good bad = do
  resp ← get_number
  if resp == ok_code then give good else (do err ← get_number; give bad)

abbrev pub provision_reply : ℕ → Handler Report
provision_reply resp =
    if resp == ip_code
    then (do ip ← get_text_of_length; give (started_at ip))
    else (do err ← get_number; give (vm_error err))

unfoldable pub provisioned : Handler Report
provisioned = do resp ← get_number; provision_reply resp

-- The commands: what each sends, and how it reads the reply.
pub data Command : Type 0 where
  kill_vm : Text → Command
  provision_vm : Text → Command
  nat_vm : Text → ℤ → ℤ → Command
  reset_counters : Command

unfoldable pub request : Command → Handler (Unit {0})
unfolding send_kill send_provision send_nat send_reset
request (kill_vm name) = send_kill name
request (provision_vm file) = send_provision file
request (nat_vm name host guest) = send_nat name host guest
request reset_counters = send_reset

unfoldable pub response : Command → Handler Report
unfolding confirmed provisioned
response (kill_vm name) = confirmed killed does_not_exist
response (provision_vm file) = provisioned
response (nat_vm name host guest) = confirmed nat_enabled does_not_exist
response reset_counters = confirmed counters_reset reset_failed
