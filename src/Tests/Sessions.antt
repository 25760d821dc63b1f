-- ===== src/Tests/Sessions.antt =====
-- Sessions at concrete commands.
use cgroup_monitor.Prelude.{◌≡◌, refl, inr, true, some, [], ◌∷◌, codes, text_eq}
use cgroup_monitor.Floats.{fixed}
use cgroup_monitor.Client.{kill_vm, killed}
use cgroup_monitor.Libvirt.Registry.{has_vm, kill}
use cgroup_monitor.Net.Addr.{SockAddr}
use cgroup_monitor.Net.Stream.{TcpStream, receive_int}
use cgroup_monitor.Libvirt.Proto.{provision_code}
use cgroup_monitor.Utils.Tokenizer.{Tokenizer}
use cgroup_monitor.Utils.Toml.{done, parse}
use cgroup_monitor.Utils.Config.{entries_end}
use cgroup_monitor.Net.Stream.Delivery.{connected}
use cgroup_monitor.Server.Vms.{Daemon, serves, Host, treat, provision_file}
use cgroup_monitor.Server.Vms.Closed.{treat-IsSilent}
use cgroup_monitor.Server.Vms.Sessions.Meaning.{meaning}
use cgroup_monitor.Tests.Configs.{numbers, garbage}
use cgroup_monitor.Tests.Provisioning.{keys, answers}
use cgroup_monitor.Tests.Registry.{named, three}

abbrev pub here : SockAddr
here = record { addr = record { a = 127; b = 0; c = 0; d = 1 }; port = 4040 }

abbrev pub host : Host fixed
host = record {
  numbers = numbers;
  fuel = 100;
  garbage = garbage;
  v2 = true;
  keys = keys;
  path = codes "/tmp/";
  answers = λ vm. answers;
}

abbrev pub daemon : Daemon fixed
daemon = record { vms = three; market_enabled = true; rules = [] }

-- The meaning of a kill, worked out.
b_killed :
    meaning host daemon (kill_vm (codes "b"))
    ≡ some (serves (record daemon { vms = named (codes "a") ∷ [] }), killed)
unfolding has_vm kill text_eq
b_killed = refl

treat-IsSilent_example :
    let silent = connected here [] [] in
    (behind s' : TcpStream) × (t : Tokenizer) × ((receive_int silent).0 ≡ provision_code)
    × (treat host daemon silent ≡ provision_file host daemon [] behind)
    × (parse numbers 100 [] ≡ done entries_end t)
    × (treat host daemon silent ≡ some (serves daemon, s'))
treat-IsSilent_example =
    treat-IsSilent host daemon 99 (connected here [] []) refl (inr (refl, refl))
