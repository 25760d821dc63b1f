-- ===== src/Server/Vms/Sessions/Started.antt =====
-- From the request of the client to the machine that answers: src/server/vm.cc with `provision` of
-- src/monitor/libvirt/client.cc.
use cgroup_monitor.Prelude.{
  ◌+◌, ◌*◌, ◌^◌, ◌<◌, ◌≤◌, ◌≡◌, ap, sym, subst, ◌∙◌, false, none, some, Text, if◌then◌else◌, codes,
  length,
}
use cgroup_monitor.Floats.{Floats}
use cgroup_monitor.Client.{started_at, provision_vm}
use cgroup_monitor.Libvirt.Registry.{has_vm, provision}
use cgroup_monitor.Libvirt.Vm.{Vm, new_vm}
use cgroup_monitor.Libvirt.Provision.Ready.{Answering, provision-Answering}
use cgroup_monitor.Net.Addr.{SockAddr}
use cgroup_monitor.Server.Vms.{Daemon, serves, Host, name_of, Booted, up, refused, boot, booted_by}
use cgroup_monitor.Server.Vms.Sessions.{IsSent}
use cgroup_monitor.Server.Vms.Sessions.Meaning.{
  session, BootsSent, started, booted, machine_of, brought_up,
}
use cgroup_monitor.Server.Vms.Sessions.Refine.{session_refines}
use cgroup_monitor.Utils.Config.{Outcome, throws, Dict, returns, get_dict}
use cgroup_monitor.Utils.Tokenizer.{Tokenizer}
use cgroup_monitor.Utils.Toml.{done, parse}

module _ {F : Floats} (h : Host F) where
  -- What a file describes: a machine whose name is free.
  pub record Describes (d : Daemon F) (file : Text) (vm : Vm F) : Type 0 where
    pub config : Dict F
    pub rest : Tokenizer
    pub name : Text
    pub parses : parse h.numbers h.fuel file ≡ done config rest
    pub has_name : name_of h (get_dict (codes "vm") config) ≡ returns name
    pub is_free : has_vm name d.vms ≡ false
    pub makes : new_vm h.garbage h.v2 config ≡ returns vm

  described :
      (d : Daemon F) (cfg : Dict F) (name : Text) (vm vm' : Vm F)
      → name_of h (get_dict (codes "vm") cfg) ≡ returns name
      → has_vm name d.vms ≡ false
      → new_vm h.garbage h.v2 cfg ≡ returns vm
      → boot h vm ≡ up vm'
      → machine_of h d cfg ≡ up vm'
  described d cfg name vm vm' named free made e =
      ap
        (λ (o : Outcome Text). elim o as (λ _. Booted F) [
          | throws e ↦ refused
          | returns n ↦ if has_vm n d.vms then refused else booted h (new_vm h.garbage h.v2 cfg)
        ])
        named
      ∙ rw (free) (ap (booted h) made ∙ e)

  -- The machine as `provision` leaves it: with its domain and its addresses.
  abbrev pub at_last : Vm F → Text → Text → Vm F
  at_last vm mac ip = record vm { dom = (h.answers vm).domain; mac = mac; ip = ip }

  boot-Answering :
      (vm : Vm F) (mac ip : Text)
      → Answering (h.answers vm) vm mac ip
      → boot h vm ≡ up (at_last vm mac ip)
  unfolding boot
  boot-Answering vm mac ip answers =
      let (acts, files, e, same) =
        provision-Answering (h.answers vm) h.keys h.path none vm mac ip answers in
      ap booted_by e

  pub brought_up-Answering :
      (d : Daemon F) (file : Text) (vm : Vm F) (mac ip : Text)
      → Describes d file vm
      → Answering (h.answers vm) vm mac ip
      → brought_up h d (parse h.numbers h.fuel file) ≡ up (at_last vm mac ip)
  brought_up-Answering d file vm mac ip w answers =
      ap (brought_up h d) w.parses
      ∙ described d w.config w.name vm (at_last vm mac ip) w.has_name w.is_free w.makes
          (boot-Answering vm mac ip answers)

  -- If the file of a provision request has no zero byte, describes a machine whose name is free, and is short
  -- enough for the parser and its fuel, and the host answers to the provisioning, with a network address
  -- that can be sent, then, on a connection whose writes succeed and whose reads each hand over all that they
  -- are asked for, the session starts the machine: it joins the machines of the daemon with its domain, the
  -- hardware address of its domain and the network address of its lease, which the user is told.
  pub session_starts :
      (a : SockAddr) (d : Daemon F) (file : Text) (vm : Vm F) (mac ip : Text)
      → IsSent file
      → length file + 1 < 2 ^ 31
      → 2 * length file + 4 ≤ h.fuel
      → IsSent ip
      → Describes d file vm
      → Answering (h.answers vm) vm mac ip
      → session h a d (provision_vm file)
        ≡ some (
          serves (record d {
            vms = provision (record vm { dom = (h.answers vm).domain; mac = mac; ip = ip }) d.vms;
          }),
          started_at ip,
        )
  session_starts a d file vm mac ip s short fuelled b w answers =
      let e = brought_up-Answering d file vm mac ip w answers in
      session_refines h a d (provision_vm file) (s, short, fuelled, subst (BootsSent h d) (sym e) b)
      ∙ ap (started h d) e
