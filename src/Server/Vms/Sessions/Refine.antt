-- ===== src/Server/Vms/Sessions/Refine.antt =====
-- Every session does what its command means.
use cgroup_monitor.Prelude.{
  length, ◌*◌, ◌≤◌, ◌<◌, ◌+◌, ℕ, ◌^◌, ◌<◌, ◌≡◌, ◌≢◌, refl, ap, sym, subst, ◌∙◌, inl, inr, Bool,
  true, false, Option, none, some, List, [], ◌++◌, Text, codes, if◌then◌else◌, arith, Bool-cases,
}
use cgroup_monitor.Prelude.Words.{ℤ, pos}
use cgroup_monitor.Floats.{Floats}
use cgroup_monitor.Client.{
  Report, killed, does_not_exist, nat_enabled, counters_reset, reset_failed, vm_error, Command,
  kill_vm, provision_vm, nat_vm, reset_counters, request, response, provisioned,
}
use cgroup_monitor.Libvirt.Registry.{has_vm}
use cgroup_monitor.Libvirt.Registry.Search.{has_vm-get_vm}
use cgroup_monitor.Libvirt.Vm.{Vm, new_vm, to_unsigned}
use cgroup_monitor.Net.Addr.{SockAddr}
use cgroup_monitor.Net.Stream.{TcpStream, to_bytes, close}
use cgroup_monitor.Net.Stream.Delivery.{connected}
use cgroup_monitor.Server.Vms.{
  Handler, ◌>>=◌, get_number, Booted, up, refused, ended, waiting, boot, Daemon, Served, serves,
  refuse, confirm, Host, treat, treat_kill, treat_nat, treat_provision, treat_reset_counters,
  open_nat, name_of, nat_of_found, boot_machine, make_machine, provision_named, provision_parsed,
  kill_named, nat_named, provision_file, dispatch,
}
use cgroup_monitor.Server.Vms.Sessions.{
  IsSent, get_number-connected, get_text-connected, refuse-connected, confirm-connected,
  answer_ip-connected,
}
use cgroup_monitor.Utils.Config.{Dict, Outcome, returns, throws, get_dict, to_int}
use cgroup_monitor.Utils.Toml.{Parsed, done, fails, no_number, no_location, no_fuel, parse}
use cgroup_monitor.Utils.Toml.Total.{parse-Outcome, Outcome-located}
use cgroup_monitor.Server.Vms.Sessions.Meaning.{
  session, meaning, served_to, reply_to, booted, started, brought_up, IsInt, BootsSent, IsRequest,
}
use cgroup_monitor.Server.Vms.Sessions.Wire.{
  to_int-to_unsigned, to_unsigned-lt, confirmed-ok, confirmed-err, provisioned-err,
  provisioned-nothing, provisioned-ip, sent_text, kill-sent, provision-sent, nat-sent, reset-sent,
}

taken :
    {A : Type 0} (b : Bool) (x y : Handler A) (s : TcpStream)
    → b ≡ true
    → (if b then x else y) s ≡ x s
taken b x y s e = rw e

left_out :
    {A : Type 0} (b : Bool) (x y : Handler A) (s : TcpStream)
    → b ≡ false
    → (if b then x else y) s ≡ y s
left_out b x y s e = rw e

module _ {F : Floats} (h : Host F) (a : SockAddr) (d : Daemon F) where
  session-eq :
      (cmd : Command) (sent : List ℕ) (served : Served F) (s : TcpStream) (report : Report)
      (s' : TcpStream)
      → request cmd (connected a [] []) ≡ some (tt, connected a [] sent)
      → treat h d (connected a sent []) ≡ some (served, s)
      → response cmd (connected a s.outgoing []) ≡ some (report, s')
      → session h a d cmd ≡ some (served, report)
  unfolding session
  session-eq cmd sent served s report s' r t e =
      ap (served_to h a d cmd) r
      ∙ ap (reply_to h a cmd) t
      ∙ ap
          (λ (o : Option (Report × TcpStream)). elim o [
            | none ↦ none
            | some (x, y) ↦ some (served, x)
          ])
          e

  session-stuck :
      (cmd : Command) (sent : List ℕ)
      → request cmd (connected a [] []) ≡ some (tt, connected a [] sent)
      → treat h d (connected a sent []) ≡ none
      → session h a d cmd ≡ none
  unfolding session
  session-stuck cmd sent r t = ap (served_to h a d cmd) r ∙ ap (reply_to h a cmd) t

  treat-dispatch :
      (code : ℕ) (rest : List ℕ)
      → code < 2 ^ 64
      → treat h d (connected a (to_bytes 8 code ++ rest) [])
        ≡ dispatch h d code (connected a rest [])
  unfolding treat
  treat-dispatch code rest b = get_number-connected (dispatch h d) code a rest [] b

  treat-kill :
      (name : Text)
      → IsSent name
      → treat h d (connected a (sent_text a 1 name []) []) ≡ kill_named d name (connected a [] [])
  unfolding sent_text dispatch treat_kill
  treat-kill name v =
      treat-dispatch 1 _ (omega arith) ∙ get_text-connected (kill_named d) name a [] [] v

  treat-provision :
      (file : Text)
      → IsSent file
      → treat h d (connected a (sent_text a 0 file []) [])
        ≡ provision_file h d file (connected a [] [])
  unfolding sent_text dispatch treat_provision
  treat-provision file v =
      treat-dispatch 0 _ (omega arith) ∙ get_text-connected (provision_file h d) file a [] [] v

  treat-nat :
      (name : Text) (rest : List ℕ)
      → IsSent name
      → treat h d (connected a (sent_text a 5 name rest) [])
        ≡ nat_named d name (connected a rest [])
  unfolding sent_text dispatch treat_nat
  treat-nat name rest v =
      treat-dispatch 5 _ (omega arith) ∙ get_text-connected (nat_named d) name a rest [] v

  kill-refines :
      (name : Text) → IsSent name → session h a d (kill_vm name) ≡ meaning h d (kill_vm name)
  unfolding response close
  kill-refines name v = elim (Bool-cases (has_vm name d.vms)) [
    | inl has ↦ rw (has) (
        session-eq (kill_vm name) (sent_text a 1 name []) _ _ _ _ (kill-sent a name)
          (treat-kill name v ∙ (taken _ _ _ _ has ∙ confirm-connected _ a []))
          (confirmed-ok a killed does_not_exist))
    | inr not_there ↦ rw (not_there) (
        session-eq (kill_vm name) (sent_text a 1 name []) _ _ _ _ (kill-sent a name)
          (treat-kill name v ∙ (left_out _ _ _ _ not_there ∙ refuse-connected _ a []))
          (confirmed-err a killed does_not_exist))
  ]

  reset-refines : session h a d reset_counters ≡ meaning h d reset_counters
  unfolding response dispatch treat_reset_counters close
  reset-refines =
      session-eq reset_counters (to_bytes 8 6 ++ []) _ _ _ _ (reset-sent a)
        (treat-dispatch 6 [] (omega arith) ∙ confirm-connected _ a [])
        (confirmed-ok a counters_reset reset_failed)

  ports-refine :
      (vm : Vm F) (host guest : ℤ)
      → IsInt host
      → IsInt guest
      → nat_of_found d
          (some vm)
          (connected a (to_bytes 8 (to_unsigned host) ++ (to_bytes 8 (to_unsigned guest) ++ [])) [])
        ≡ some (serves (open_nat vm host guest d), close (connected a [] (to_bytes 8 2)))
  ports-refine vm host guest hb gb =
      get_number-connected
        (λ x. get_number >>= λ y. confirm (open_nat vm (to_int (pos x)) (to_int (pos y)) d))
        (to_unsigned host) a (to_bytes 8 (to_unsigned guest) ++ []) [] (to_unsigned-lt host hb)
      ∙ get_number-connected
          (λ y. confirm (open_nat vm (to_int (pos (to_unsigned host))) (to_int (pos y)) d))
          (to_unsigned guest) a [] [] (to_unsigned-lt guest gb)
      ∙ rw (to_int-to_unsigned host hb, to_int-to_unsigned guest gb) (confirm-connected _ a [])

  nat-refines :
      (name : Text) (host guest : ℤ)
      → IsSent name
      → IsInt host
      → IsInt guest
      → session h a d (nat_vm name host guest) ≡ meaning h d (nat_vm name host guest)
  unfolding response close
  nat-refines name host guest v hb gb = elim (has_vm-get_vm name d.vms) [
    | inl (has, (vm, found, e)) ↦ rw (found) (
        session-eq (nat_vm name host guest) (sent_text a 5 name _) _ _ _ _
          (nat-sent a name host guest)
          (treat-nat name _ v
            ∙ (taken _ _ _ _ has
                ∙ (ap
                      (λ (o : Option (Vm F)). nat_of_found d o (
                        connected a
                          (to_bytes 8 (to_unsigned host) ++ (to_bytes 8 (to_unsigned guest) ++ []))
                          []))
                      found
                    ∙ ports-refine vm host guest hb gb)))
          (confirmed-ok a nat_enabled does_not_exist))
    | inr (has, found) ↦ rw (found) (
        session-eq (nat_vm name host guest) (sent_text a 5 name _) _ _ _ _
          (nat-sent a name host guest)
          (treat-nat name _ v ∙ (left_out _ _ _ _ has ∙ refuse-connected d a _))
          (confirmed-err a nat_enabled does_not_exist))
  ]

  -- The reply to a provision, and how the client reads it.
  abbrev Answered : Option (Served F × TcpStream) → Option (Served F × Report) → Type 0
  Answered out none = out ≡ none
  Answered out (some r) =
      (s : TcpStream) × (out ≡ some (r.0, s))
      × (provisioned (connected a s.outgoing []) ≡ some (r.1, connected a [] []))

  refuse-Answered : Answered (refuse d (connected a [] [])) (some (serves d, vm_error 1))
  unfolding close
  refuse-Answered = (_, refuse-connected d a [], provisioned-err a)

  boot-Answered :
      (b : Booted F)
      → BootsSent h d b
      → Answered (boot_machine h d b (connected a [] [])) (started h d b)
  unfolding close
  boot-Answered (up vm) b = (_, answer_ip-connected _ _ a [], provisioned-ip a vm.ip b)
  boot-Answered refused b = refuse-Answered
  boot-Answered ended b = (_, refl, provisioned-nothing a)
  boot-Answered waiting b = refl

  make-Answered :
      (o : Outcome (Vm F))
      → BootsSent h d (booted h o)
      → Answered (make_machine h d o (connected a [] [])) (started h d (booted h o))
  make-Answered (throws e) b = refuse-Answered
  make-Answered (returns vm) b = boot-Answered (boot h vm) b

  abbrev named : Dict F → Outcome Text → Booted F
  named cfg (throws e) = refused
  named cfg (returns name) =
      if has_vm name d.vms then refused else booted h (new_vm h.garbage h.v2 cfg)

  named-Answered :
      (cfg : Dict F) (o : Outcome Text)
      → BootsSent h d (named cfg o)
      → Answered (provision_named h d cfg o (connected a [] [])) (started h d (named cfg o))
  named-Answered cfg (throws e) b = refuse-Answered
  named-Answered cfg (returns name) b = elim (Bool-cases (has_vm name d.vms)) [
    | inl has ↦ rw (has) refuse-Answered
    | inr not_there ↦
        rw (not_there) (make-Answered (new_vm h.garbage h.v2 cfg) (rw (not_there) at b))
  ]

  machine_of-named :
      (cfg : Dict F) (o : Outcome Text)
      → named cfg o ≡ elim o [
        | throws e ↦ refused
        | returns name ↦ if has_vm name d.vms then refused else booted h (new_vm h.garbage h.v2 cfg)
      ]
  machine_of-named cfg (throws e) = refl
  machine_of-named cfg (returns name) = refl

  parsed-Answered :
      (p : Parsed (Dict F))
      → p ≢ no_location
      → p ≢ no_fuel
      → BootsSent h d (brought_up h d p)
      → Answered (provision_parsed h d p (connected a [] [])) (started h d (brought_up h d p))
  parsed-Answered (done cfg t) u v b =
      let name = name_of h (get_dict (codes "vm") cfg) in
      let same = machine_of-named cfg name in
      subst (λ x. Answered (provision_named h d cfg name (connected a [] [])) (started h d x)) same
        (named-Answered cfg name (subst (BootsSent h d) (sym same) b))
  parsed-Answered (fails e) u v b = (_, refl, provisioned-nothing a)
  parsed-Answered no_number u v b = (_, refl, provisioned-nothing a)
  parsed-Answered no_location u v b = absurd (u refl)
  parsed-Answered no_fuel u v b = absurd (v refl)

  session-Answered :
      (file : Text) (r : Option (Served F × Report))
      → IsSent file
      → Answered (provision_file h d file (connected a [] [])) r
      → session h a d (provision_vm file) ≡ r
  unfolding response
  session-Answered file none v e =
      session-stuck (provision_vm file) (sent_text a 0 file []) (provision-sent a file)
        (treat-provision file v ∙ e)
  session-Answered file (some r) v (s, e, read) =
      session-eq (provision_vm file) (sent_text a 0 file []) _ s _ _ (provision-sent a file)
        (treat-provision file v ∙ e) read

  provision-refines :
      (file : Text)
      → IsSent file
      → length file + 1 < 2 ^ 31
      → 2 * length file + 4 ≤ h.fuel
      → BootsSent h d (brought_up h d (parse h.numbers h.fuel file))
      → session h a d (provision_vm file) ≡ meaning h d (provision_vm file)
  provision-refines file v short fuelled b =
      let (u, w) =
        Outcome-located h.numbers _ (parse-Outcome h.numbers h.fuel file short fuelled) in
      session-Answered file _ v (parsed-Answered (parse h.numbers h.fuel file) u w b)

  pub session_refines : (cmd : Command) → IsRequest h d cmd → session h a d cmd ≡ meaning h d cmd
  session_refines (kill_vm name) v = kill-refines name v
  session_refines (provision_vm file) (v, short, fuelled, b) =
      provision-refines file v short fuelled b
  session_refines (nat_vm name host guest) (v, hb, gb) = nat-refines name host guest v hb gb
  session_refines reset_counters v = reset-refines
