-- ===== src/Tests/Provisioning.antt =====
-- Provisioning a concrete machine on concrete hosts.
use cgroup_monitor.Prelude.{
  inr, ◌≡◌, ◌⊎◌, refl, Bool, true, false, not, ◌&&◌, Option, none, some, List, [], ◌∷◌, ◌++◌, Text,
  codes, text_eq, if◌then◌else◌, get_elem?, length,
}
use cgroup_monitor.Floats.{fixed}
use cgroup_monitor.Utils.Tokenizer.{one_of, find, is_prefix}
use cgroup_monitor.Libvirt.Paths.{join, needs_slash}
use cgroup_monitor.Libvirt.Actions.{Action, did}
use cgroup_monitor.Libvirt.Vm.{Vm}
use cgroup_monitor.Libvirt.Cgroup.Tree.{Node, Files, directory, no_entries, named, contains}
use cgroup_monitor.Libvirt.Provision.{Keys, delete_dir_and_vm_file}
use cgroup_monitor.Libvirt.Provision.Booting.{Answers, ip_of, provision_machine}
use cgroup_monitor.Libvirt.Provision.Disk.{Tools, IsDocumented, actions_of, exec_all}
use cgroup_monitor.Libvirt.Provision.Files.{machine_files, provision-leaves}
use cgroup_monitor.Libvirt.Provision.Ready.{Answering, provision-Answering}
use cgroup_monitor.Tests.Registry
use cgroup_monitor.Tests.Samples.{busy}

abbrev some_file : Option Text → List Text
some_file none = []
some_file (some f) = f ∷ []

abbrev begins_with : Text → List Text → Bool
begins_with word [] = false
begins_with word (x ∷ xs) = text_eq x word

abbrev known_hosts : Text
known_hosts = codes "/root/.ssh/known_hosts"

abbrev tools : Tools
tools cmd args =
    if text_eq cmd (codes "mkisofs")
    then some_file (get_elem? args 1)
    else (if text_eq cmd (codes "qemu-img") && begins_with (codes "create") args
        then some_file (get_elem? args 3)
        else (if text_eq cmd (codes "ssh") then known_hosts ∷ [] else []))

tools-IsDocumented : IsDocumented tools
unfolding text_eq
tools-IsDocumented = record {
  mkisofs_makes = λ f more. refl;
  create_makes = λ format f size. refl;
  resize_makes = λ f size. refl;
  sysprep_makes = λ args. refl;
  install_makes = λ args. refl;
  virsh_makes = λ args. refl;
  known_hosts = known_hosts;
  known_hosts-IsAbsolute = refl;
  ssh_makes = λ args. inr refl;
  chmod_makes = λ args. refl;
}

abbrev machine : Vm fixed
machine = record (Registry.named (codes "d")) { vcpus = busy ∷ busy ∷ [] }

abbrev pub keys : Keys
keys = record { key_path = codes "/usr/lib/dio/keys"; pub_key = codes "ssh-rsa AAAA" }

abbrev pub tree : Node
tree = directory (named (codes "machine-qemu-3-vd.scope") (directory no_entries) no_entries)

abbrev pub answers : Answers
answers = record {
  succeeds = λ a. true;
  domains = none ∷ some 3 ∷ [];
  descriptions = none ∷ some [] ∷ some (codes "52:54:00") ∷ [];
  leases =
      none
      ∷ some ((codes "52:54:11", codes "192.168.122.2") ∷ [])
      ∷ some ((codes "52:54:00", codes "192.168.122.7") ∷ [])
      ∷ [];
  chmod_status = 0;
  ssh_statuses = 255 ∷ 0 ∷ [];
  domain = some 3;
  v2 = true;
  read_number = λ path. 77;
  trees = λ i. directory no_entries ∷ tree ∷ [];
}

provision-leaves_example :
    ((one_of (machine_files (codes "/tmp/vd") (codes "d")) (codes "/etc/passwd") ≡ true)
      ⊎ (known_hosts ≡ codes "/etc/passwd")
      ⊎ (exec_all tools
            (actions_of (provision_machine answers keys (codes "/tmp/") none machine))
            (λ q. true)
            (codes "/etc/passwd")
          ≡ true))
    × ((known_hosts ≡ codes "/etc/passwd")
        ⊎ (exec_all tools
              (actions_of (provision_machine answers keys (codes "/tmp/") none machine)
                ++ actions_of (delete_dir_and_vm_file machine (codes "/tmp/vd")))
              (λ q. true)
              (codes "/etc/passwd")
            ≡ (not (one_of (machine_files (codes "/tmp/vd") (codes "d")) (codes "/etc/passwd"))
                && true)))
unfolding join needs_slash tools-IsDocumented
provision-leaves_example =
    provision-leaves tools tools-IsDocumented answers keys (codes "/tmp/") none machine tt
      (λ q. true) (codes "/etc/passwd")

machine-Answering : Answering answers machine (codes "52:54:00") (codes "192.168.122.7")
unfolding ip_of text_eq contains find is_prefix join needs_slash
machine-Answering = record {
  well = λ a. refl;
  domain = 3;
  appears = (none ∷ [], some 3, [], refl, (refl, tt), refl);
  has_mac = (none ∷ some [] ∷ [], some (codes "52:54:00"), [], refl, (refl, (refl, tt)), refl);
  has_lease = (
    none ∷ some ((codes "52:54:11", codes "192.168.122.2") ∷ []) ∷ [],
    some ((codes "52:54:00", codes "192.168.122.7") ∷ []),
    [],
    refl,
    (refl, (refl, tt)),
    refl,
  );
  protects = refl;
  connects = (255 ∷ [], [], refl);
  groups = λ i. (
    directory no_entries ∷ [],
    tree,
    [],
    refl,
    ((refl, tt), tt),
    (
      codes "/sys/fs/cgroup/machine.slice" ∷ [],
      codes "/sys/fs/cgroup/machine.slice/machine-qemu-3-vd.scope",
      [],
      refl,
      refl,
    ),
  );
}

provision-Answering_example :
    (acts : List Action) × (files : List Files) × (provision_machine answers keys
        (codes "/tmp/")
        none
        machine
      ≡ did acts (
        record machine { dom = some 3; mac = codes "52:54:00"; ip = codes "192.168.122.7" },
        files,
      ))
    × (length files ≡ length machine.vcpus)
provision-Answering_example =
    provision-Answering answers keys (codes "/tmp/") none machine (codes "52:54:00")
      (codes "192.168.122.7") machine-Answering
