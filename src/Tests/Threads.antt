-- ===== src/Tests/Threads.antt =====
-- Steps of the threads at concrete machines.
use cgroup_monitor.Prelude.{◌≡◌, refl, [], ◌∷◌, ◌++◌, codes, text_eq}
use cgroup_monitor.Floats.{fixed}
use cgroup_monitor.Libvirt.Registry.{kill, get_vm}
use cgroup_monitor.Utils.Tokenizer.{one_of}
use cgroup_monitor.Server.Market.Round.{reset}
use cgroup_monitor.Server.Threads.{
  Shared, Steps, still, later, kills, begins, joins, resets, AllBeginAlone,
}
use cgroup_monitor.Server.Threads.Names.{AreApart, AreDistinct, names, steps-AreApart}
use cgroup_monitor.Tests.Registry.{three, named}
use cgroup_monitor.Tests.Samples.{config}
use cgroup_monitor.Prelude.{Option, some}
use cgroup_monitor.Libvirt.Proto.{kill_code}
use cgroup_monitor.Libvirt.Registry.{has_vm}
use cgroup_monitor.Net.Stream.{TcpStream, to_bytes, receive_int, receive}
use cgroup_monitor.Net.Stream.Delivery.{connected}
use cgroup_monitor.Server.Vms.{Daemon, Served, serves, treat, dispatch, get_text_of_length, confirm}
use cgroup_monitor.Server.Vms.Distinct.{treat-AreDistinct}
use cgroup_monitor.Tests.Sessions.{here, daemon, host}

abbrev at_first : Shared fixed
at_first = record { vms = three; booting = [] }

-- The machine b is killed and the counters are reset while d boots.
abbrev at_last : Shared fixed
at_last = record {
  vms = reset (kill (codes "b") (kill (codes "d") three)) ++ named (codes "d") ∷ [];
  booting = [];
}

abbrev between : Steps 1 config at_first at_last
between =
    later (later (later (later still (begins (codes "d"))) (kills (codes "b"))) resets)
      (joins (named (codes "d")) [] [] refl)

at_first-AreApart : AreApart at_first
unfolding one_of text_eq
at_first-AreApart = record {
  running = (refl, (refl, (refl, tt)));
  starting = tt;
  disjoint = λ m h. cc;
}

alone : AllBeginAlone 1 config between
unfolding one_of
alone = ((((tt, refl), tt), tt), tt)

steps-AreApart_example : AreApart at_last
steps-AreApart_example = steps-AreApart 1 config at_first at_last between alone at_first-AreApart

-- Two provisions of one name that overlap leave two machines of that name.
abbrev twice : Shared fixed
twice = record {
  vms =
      kill (codes "d") (kill (codes "d") three) ++ named (codes "d") ∷ [] ++ named (codes "d") ∷ [];
  booting = [];
}

overlapping : Steps 1 config at_first twice
overlapping =
    later
      (later (later (later still (begins (codes "d"))) (begins (codes "d")))
        (joins (named (codes "d")) [] (codes "d" ∷ []) refl))
      (joins (named (codes "d")) [] [] refl)

twice_named : names twice.vms ≡ codes "a" ∷ codes "b" ∷ codes "c" ∷ codes "d" ∷ codes "d" ∷ []
unfolding kill get_vm text_eq
twice_named = refl

-- The bytes of a request to kill the machine b, and the stream behind it.
kill_b : TcpStream
unfolding to_bytes
kill_b = connected here (to_bytes 8 kill_code ++ to_bytes 8 1 ++ codes "b") []

or_daemon : Option (Served fixed × TcpStream) → Daemon fixed × TcpStream
or_daemon (some (serves d, s)) = (d, s)
or_daemon other = (daemon, kill_b)

killed : Daemon fixed × TcpStream
unfolding or_daemon treat kill_b
killed = or_daemon (treat host daemon kill_b)

b_killed : treat host daemon kill_b ≡ some (serves killed.0, killed.1)
unfolding killed treat dispatch receive_int get_text_of_length receive has_vm text_eq confirm
b_killed = refl

treat-AreDistinct_example : AreDistinct (names killed.0.vms)
unfolding one_of text_eq
treat-AreDistinct_example =
    treat-AreDistinct host daemon kill_b killed.1 killed.0 b_killed (refl, (refl, (refl, tt)))
