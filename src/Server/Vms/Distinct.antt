-- ===== src/Server/Vms/Distinct.antt =====
-- The handlers of src/server/vm.cc keep the names of the machines apart.
use cgroup_monitor.Prelude.{
  ℕ, ◌≡◌, subst, sym, inl, inr, Bool, true, false, Option, none, some, [], Text, text_eq, codes,
  ◌==◌, if◌then◌else◌, Bool-cases,
}
use cgroup_monitor.Prelude.Words.{ℤ}
use cgroup_monitor.Floats.{Floats}
use cgroup_monitor.Libvirt.Proto.{provision_code, kill_code, ip_code, nat_code, reset_code}
use cgroup_monitor.Libvirt.Registry.{has_vm, get_vm, kill}
use cgroup_monitor.Libvirt.Vm.{Vm, new_vm}
use cgroup_monitor.Net.Stream.{TcpStream, receive_int}
use cgroup_monitor.Server.Threads.Names.{
  AreDistinct, names, kill-AreDistinct, provision-AreDistinct, names-reset,
}
use cgroup_monitor.Server.Vms.{
  Booted, up, refused, ended, waiting, boot, Handler, Daemon, Served, serves, crashes, Host,
  get_text_of_length, open_nat, reset_market_counters, refuse, confirm, answer_ip, kill_named,
  treat_kill, ip_of_found, treat_ip, nat_of_found, nat_named, treat_nat, treat_reset_counters,
  boot_machine, make_machine, name_of, provision_named, provision_parsed, provision_file,
  treat_provision, dispatch, treat,
}
use cgroup_monitor.Utils.Config.{Dict, Outcome, returns, throws, get_dict}
use cgroup_monitor.Utils.Toml.{Parsed, done, fails, no_number, no_location, no_fuel, parse}

module _ {F : Floats} where
  -- What holds of the daemon, if it is still there.
  Leaves : (Daemon F → Type 0) → Option (Served F × TcpStream) → Type 0
  Leaves Q none = Unit
  Leaves Q (some (serves d, s)) = Q d
  Leaves Q (some (crashes, s)) = Unit

  Leaves-passed :
      {A : Type 0} (Q : Daemon F → Type 0) (r : Option (A × TcpStream)) (f : A → Handler (Served F))
      → ((a : A) (s : TcpStream) → Leaves Q (f a s))
      → Leaves Q (elim r [ none ↦ none | some (a, s') ↦ f a s' ])
  unfolding Leaves
  Leaves-passed Q none f h = tt
  Leaves-passed Q (some (a, s)) f h = h a s

  Leaves-if :
      (Q : Daemon F → Type 0) (b : Bool) (p q : Handler (Served F)) (s : TcpStream)
      → Leaves Q (p s)
      → Leaves Q (q s)
      → Leaves Q ((if b then p else q) s)
  Leaves-if Q true p q s h k = h
  Leaves-if Q false p q s h k = k

  abbrev From : Daemon F → Daemon F → Type 0
  From d d' = AreDistinct (names d.vms) → AreDistinct (names d'.vms)

  refuse-Leaves : (d : Daemon F) (s : TcpStream) → Leaves (From d) (refuse d s)
  unfolding refuse Leaves
  refuse-Leaves d s = (λ a. a)

  confirm-Leaves : (d d' : Daemon F) (s : TcpStream) → From d d' → Leaves (From d) (confirm d' s)
  unfolding confirm Leaves
  confirm-Leaves d d' s h = h

  answer_ip-Leaves :
      (vm : Vm F) (d d' : Daemon F) (s : TcpStream)
      → From d d'
      → Leaves (From d) (answer_ip vm d' s)
  unfolding answer_ip Leaves
  answer_ip-Leaves vm d d' s h = h

  treat_kill-Leaves : (d : Daemon F) (s : TcpStream) → Leaves (From d) (treat_kill d s)
  unfolding treat_kill
  treat_kill-Leaves d s = Leaves-passed (From d) (get_text_of_length s) (kill_named d) λ name s'.
      Leaves-if (From d) (has_vm name d.vms) _ _ s'
        (confirm-Leaves d (record d { vms = kill name d.vms }) s'
          (λ a. (kill-AreDistinct name d.vms a).0))
        (refuse-Leaves d s')

  ip_of_found-Leaves :
      (d : Daemon F) (found : Option (Vm F)) (s : TcpStream)
      → Leaves (From d) (ip_of_found d found s)
  ip_of_found-Leaves d none s = refuse-Leaves d s
  ip_of_found-Leaves d (some vm) s = answer_ip-Leaves vm d d s (λ a. a)

  treat_ip-Leaves : (d : Daemon F) (s : TcpStream) → Leaves (From d) (treat_ip d s)
  unfolding treat_ip
  treat_ip-Leaves d s =
      Leaves-passed (From d) (get_text_of_length s)
        (λ name. if has_vm name d.vms then ip_of_found d (get_vm name d.vms) else refuse d)
        λ name s'.
          Leaves-if (From d) (has_vm name d.vms) _ _ s'
            (ip_of_found-Leaves d (get_vm name d.vms) s') (refuse-Leaves d s')

  open_nat-From : (vm : Vm F) (a b : ℤ) (d : Daemon F) → From d (open_nat vm a b d)
  unfolding open_nat
  open_nat-From vm a b d = elim (Bool-cases (text_eq vm.ip [])) [
    | inl none_yet ↦ rw (none_yet) (λ a. a)
    | inr address ↦ rw (address) (λ a. a)
  ]

  nat_of_found-Leaves :
      (d : Daemon F) (found : Option (Vm F)) (s : TcpStream)
      → Leaves (From d) (nat_of_found d found s)
  nat_of_found-Leaves d none s = refuse-Leaves d s
  nat_of_found-Leaves d (some vm) s = confirm-Leaves d _ _ (open_nat-From vm _ _ d)

  treat_nat-Leaves : (d : Daemon F) (s : TcpStream) → Leaves (From d) (treat_nat d s)
  unfolding treat_nat
  treat_nat-Leaves d s = Leaves-passed (From d) (get_text_of_length s) (nat_named d) λ name s'.
      Leaves-if (From d) (has_vm name d.vms) _ _ s' (nat_of_found-Leaves d (get_vm name d.vms) s')
        (refuse-Leaves d s')

  reset_market_counters-From : (d : Daemon F) → From d (reset_market_counters d)
  unfolding reset_market_counters
  reset_market_counters-From d = elim (Bool-cases d.market_enabled) [
    | inl on ↦ rw (on) (λ a. subst AreDistinct (sym (names-reset d.vms)) a)
    | inr off ↦ rw (off) (λ a. a)
  ]

  module _ (h : Host F) (d : Daemon F) where
    boot_machine-Leaves :
        (booted : Booted F) (s : TcpStream) → Leaves (From d) (boot_machine h d booted s)
    unfolding Leaves
    boot_machine-Leaves (up vm) s = answer_ip-Leaves vm d _ s (provision-AreDistinct vm d.vms)
    boot_machine-Leaves refused s = refuse-Leaves d s
    boot_machine-Leaves ended s = tt
    boot_machine-Leaves waiting s = tt

    make_machine-Leaves :
        (made : Outcome (Vm F)) (s : TcpStream) → Leaves (From d) (make_machine h d made s)
    make_machine-Leaves (returns vm) s = boot_machine-Leaves (boot h vm) s
    make_machine-Leaves (throws e) s = refuse-Leaves d s

    provision_named-Leaves :
        (c : Dict F) (name : Outcome Text) (s : TcpStream)
        → Leaves (From d) (provision_named h d c name s)
    provision_named-Leaves c (returns name) s =
        Leaves-if (From d) (has_vm name d.vms) _ _ s (refuse-Leaves d s)
          (make_machine-Leaves (new_vm h.garbage h.v2 c) s)
    provision_named-Leaves c (throws e) s = refuse-Leaves d s

    provision_parsed-Leaves :
        (p : Parsed (Dict F)) (s : TcpStream) → Leaves (From d) (provision_parsed h d p s)
    unfolding Leaves
    provision_parsed-Leaves (done c t) s =
        provision_named-Leaves c (name_of h (get_dict (codes "vm") c)) s
    provision_parsed-Leaves (fails e) s = tt
    provision_parsed-Leaves no_number s = tt
    provision_parsed-Leaves no_location s = tt
    provision_parsed-Leaves no_fuel s = tt

    treat_provision-Leaves : (s : TcpStream) → Leaves (From d) (treat_provision h d s)
    unfolding treat_provision
    treat_provision-Leaves s =
        Leaves-passed (From d) (get_text_of_length s) (provision_file h d)
          λ file s'. provision_parsed-Leaves (parse h.numbers h.fuel file) s'

    dispatch-Leaves : (prot : ℕ) (s : TcpStream) → Leaves (From d) (dispatch h d prot s)
    unfolding dispatch treat_reset_counters Leaves
    dispatch-Leaves prot s =
        Leaves-if (From d) (prot == provision_code) _ _ s (treat_provision-Leaves s) (
          Leaves-if (From d) (prot == kill_code) _ _ s (treat_kill-Leaves d s) (
            Leaves-if (From d) (prot == ip_code) _ _ s (treat_ip-Leaves d s) (
              Leaves-if (From d) (prot == nat_code) _ _ s (treat_nat-Leaves d s) (
                Leaves-if (From d) (prot == reset_code) _ _ s
                  (confirm-Leaves d (reset_market_counters d) s (reset_market_counters-From d))
                  (λ a. a)))))

    -- Whatever a connection brings, whichever of its reads and writes fail, and whatever the host answers to a
    -- boot: if no two machines of the daemon have the same name, and the daemon is still there after the
    -- handler of the connection, which runs without another one beside it, no two have then.
    pub treat-AreDistinct :
        (s s' : TcpStream) (d' : Daemon F)
        → treat h d s ≡ some (serves d', s')
        → AreDistinct (names d.vms)
        → AreDistinct (names d'.vms)
    unfolding treat Leaves
    treat-AreDistinct s s' d' e =
        subst (Leaves (From d)) e (dispatch-Leaves (receive_int s).0 (receive_int s).1)
