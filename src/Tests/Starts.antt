-- ===== src/Tests/Starts.antt =====
-- A session that starts a machine.
use cgroup_monitor.Prelude.{
  ◌≡◌, refl, true, none, some, [], ◌∷◌, Text, codes, text_eq, text_less, arith,
}
use cgroup_monitor.Prelude.Words.{pos}
use cgroup_monitor.Floats.{fixed}
use cgroup_monitor.Client.{started_at, provision_vm}
use cgroup_monitor.Libvirt.Registry.{has_vm, provision}
use cgroup_monitor.Libvirt.Paths.{needs_slash, join}
use cgroup_monitor.Libvirt.Vm.{Vm, new_vm, controllers}
use cgroup_monitor.Libvirt.Cgroup.Tree.{directory, no_entries, contains}
use cgroup_monitor.Libvirt.Provision.Booting.{ip_of}
use cgroup_monitor.Libvirt.Provision.Ready.{Answering}
use cgroup_monitor.Server.Vms.{serves}
use cgroup_monitor.Server.Vms.Sessions.{IsSent}
use cgroup_monitor.Server.Vms.Sessions.Meaning.{session}
use cgroup_monitor.Server.Vms.Sessions.Started.{Describes, session_starts}
use cgroup_monitor.Utils.Tokenizer.{
  new_tokenizer, is_prefix, find, scan, width, advance, next_pure, skip_comment, next, rewind,
  one_of, skip,
}
use cgroup_monitor.Utils.Config.{
  get_dict, dict_in, get_text, text_in, get_or_text, get_or_int, get_or_float, lookup, insert,
  is_number, str, dic, entry, entries_end,
}
use cgroup_monitor.Utils.Toml.{
  token, back, assert_msg, parse_int, parse_float, string_loop, parse_string, start_of, parse_value,
  parse_sections, parse,
}
use cgroup_monitor.Tests.Configs.{garbage}
use cgroup_monitor.Tests.Provisioning.{answers, tree}
use cgroup_monitor.Tests.Sessions.{host, daemon, here}

abbrev file : Text
file = codes "[vm]\nname = 'd'\nimage = 'os.img'\n"

file-IsSent : IsSent file
file-IsSent = record { plain = omega arith; short = omega arith }

address-IsSent : IsSent (codes "192.168.122.7")
address-IsSent = record { plain = omega arith; short = omega arith }

abbrev described : Vm fixed
described = record {
  dom = none;
  id = codes "d";
  user_name = codes "phil";
  pub_key = [];
  qcow = codes "os.img";
  disk = pos 10_000;
  nb_vcpus = pos 1;
  mem = pos 2_048;
  freq = pos 1_000;
  memory_sla = fixed.float_lit 1 2;
  ip = [];
  mac = [];
  vcpus = controllers garbage true (codes "d") 1_000 0 1;
  money = 0;
}

file-Describes : Describes host daemon file described
unfolding parse parse_sections parse_value parse_int parse_float parse_string string_loop start_of
    token back assert_msg next one_of text_eq next_pure advance width scan find is_prefix
    new_tokenizer skip_comment rewind skip insert text_less lookup has_vm new_vm is_number get_dict
    dict_in get_text text_in get_or_text get_or_int get_or_float
file-Describes = record {
  config =
      entry (codes "vm")
        (dic (
          entry (codes "image") (str (codes "os.img"))
            (entry (codes "name") (str (codes "d")) entries_end)))
        entries_end;
  rest = _;
  name = codes "d";
  parses = refl;
  has_name = refl;
  is_free = refl;
  makes = refl;
}

described-Answering : Answering answers described (codes "52:54:00") (codes "192.168.122.7")
unfolding ip_of text_eq contains find is_prefix join needs_slash
described-Answering = record {
  well = λ a. refl;
  domain = 3;
  appears = (none ∷ [], some 3, [], refl, (refl, tt), refl);
  has_mac = (none ∷ some [] ∷ [], some (codes "52:54:00"), [], refl, (refl, (refl, tt)), refl);
  has_lease = (
    none ∷ some ((codes "52:54:11", codes "192.168.122.2") ∷ []) ∷ [],
    some ((codes "52:54:00", codes "192.168.122.7") ∷ []),
    [],
    refl,
    (refl, (refl, tt)),
    refl,
  );
  protects = refl;
  connects = (255 ∷ [], [], refl);
  groups = λ i. (
    directory no_entries ∷ [],
    tree,
    [],
    refl,
    ((refl, tt), tt),
    (
      codes "/sys/fs/cgroup/machine.slice" ∷ [],
      codes "/sys/fs/cgroup/machine.slice/machine-qemu-3-vd.scope",
      [],
      refl,
      refl,
    ),
  );
}

session_starts_example :
    session host here daemon (provision_vm file)
    ≡ some (
      serves (record daemon {
        vms =
            provision
              (record described {
                dom = some 3;
                mac = codes "52:54:00";
                ip = codes "192.168.122.7";
              })
              daemon.vms;
      }),
      started_at (codes "192.168.122.7"),
    )
session_starts_example =
    session_starts host here daemon file described (codes "52:54:00") (codes "192.168.122.7")
      file-IsSent (omega arith) (omega arith) address-IsSent file-Describes described-Answering
