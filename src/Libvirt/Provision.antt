-- ===== src/Libvirt/Provision.antt =====
-- src/monitor/libvirt/client.cc: the files and the subprocesses of a machine, when it is provisioned and
-- when it is killed.
pub mod Booting
pub mod Disk
pub mod Files
pub mod Ready
use cgroup_monitor.Prelude.{
  ℕ, Bool, false, Option, none, some, List, [], ◌∷◌, ◌++◌, Text, codes, text_eq, if◌then◌else◌,
  length, take, min, ◌==◌,
}
use cgroup_monitor.Prelude.Words.{sub64}
use cgroup_monitor.Floats.{Floats}
use cgroup_monitor.Utils.Dump.{show_int}
use cgroup_monitor.Libvirt.Paths.{join}
use cgroup_monitor.Libvirt.Actions.{
  chop, Action, create_directories, copy_file, chmod, write_file, remove_file, destroy_domain,
  undefine_domain, Run, did, ◌>>=◌, ◌>>◌, act, process, attempt,
}
use cgroup_monitor.Libvirt.Vm.{Vm}

-- The keys of the client: `setKeyPath`, with the content of the file.
pub record Keys : Type 0 where
  pub key_path : Text
  pub pub_key : Text

unfoldable pub set_key_path : Text → Text → Keys
unfolding chop
set_key_path path content = record { key_path = path; pub_key = chop content }

abbrev pub line : Text → Text
line s = s ++ codes "\n"

abbrev pub iso_args : List Text
iso_args =
    codes "-o"
    ∷ codes "user.iso"
    ∷ codes "-V"
    ∷ codes "cidata"
    ∷ codes "-J"
    ∷ codes "-r"
    ∷ codes "user-data"
    ∷ codes "meta-data"
    ∷ []

unfoldable pub create_iso_data : Text → Run (Unit {0})
create_iso_data dir = process (codes "mkisofs") iso_args dir

module _ {F : Floats} where
  abbrev pub domain_name : Vm F → Text
  domain_name vm = codes "v" ++ vm.id

  abbrev pub image_name : Vm F → Text
  image_name vm = domain_name vm ++ codes ".qcow2"

  unfoldable pub user_data : Keys → Vm F → Text
  user_data keys vm =
      line (codes "#cloud-config")
      ++ line (codes "---")
      ++ line (codes "users:")
      ++ line (codes "- name: " ++ vm.user_name)
      ++ line (codes "  password: " ++ vm.user_name)
      ++ line (codes "  shell: /bin/bash")
      ++ line
          (codes "  ssh-authorized-keys: [" ++ vm.pub_key ++ codes "," ++ keys.pub_key ++ codes "]")
      ++ line (codes "  groups: wheel")
      ++ line (codes "  sudo: ['ALL=(ALL) NOPASSWD:ALL']")
      ++ line (codes "  lock_passwd: 'false'")

  unfoldable pub create_user_data : Keys → Vm F → Text → Run (Unit {0})
  unfolding user_data join
  create_user_data keys vm dir = do
    act (write_file (join dir (codes "user-data")) (user_data keys vm))
    act (chmod (join dir (codes "user-data")) 0o644)

  unfoldable pub create_meta_data : Vm F → Text → Run (Unit {0})
  unfolding join
  create_meta_data vm dir = do
    act (
        write_file (join dir (codes "meta-data")) (
          line (
            codes "{instance-id: v" ++ vm.id ++ codes ", local-hostname: v" ++ vm.id ++ codes "}")))
    act (chmod (join dir (codes "meta-data")) 0o644)

  abbrev pub resize_args : Vm F → List Text
  resize_args vm =
      codes "resize" ∷ image_name vm ∷ (codes "+" ++ show_int vm.disk ++ codes "M") ∷ []

  unfoldable pub resize_image : Vm F → Text → Run (Unit {0})
  unfolding show_int
  resize_image vm dir = process (codes "qemu-img") (resize_args vm) dir

  unfoldable pub prepare_image : Vm F → Text → Run (Unit {0})
  prepare_image vm dir = process (codes "virt-sysprep") (codes "-a" ∷ image_name vm ∷ []) dir

  abbrev pub swap_args : Vm F → List Text
  swap_args vm =
      codes "create"
      ∷ codes "-f"
      ∷ codes "raw"
      ∷ codes "swap-space.img"
      ∷ (show_int vm.mem ++ codes "M")
      ∷ []

  unfoldable pub create_swap_disk : Vm F → Text → Run (Unit {0})
  unfolding show_int
  create_swap_disk vm dir = process (codes "qemu-img") (swap_args vm) dir

  unfoldable pub create_dir_and_vm_file : (Action → Bool) → Keys → Vm F → Text → Run (Unit {0})
  unfolding create_user_data create_meta_data create_iso_data resize_image create_swap_disk
      prepare_image join
  create_dir_and_vm_file succeeds keys vm dir = do
    attempt succeeds (create_directories dir)
    attempt succeeds (copy_file vm.qcow (join dir (image_name vm)))
    act (chmod (join dir (image_name vm)) 0o777)
    create_user_data keys vm dir
    create_meta_data vm dir
    create_iso_data dir
    resize_image vm dir
    create_swap_disk vm dir
    prepare_image vm dir

  abbrev pub install_args : Vm F → List Text
  install_args vm =
      codes "--import"
      ∷ codes "--name"
      ∷ domain_name vm
      ∷ codes "--ram"
      ∷ show_int vm.mem
      ∷ codes "--vcpu"
      ∷ show_int vm.nb_vcpus
      ∷ codes "--disk"
      ∷ (image_name vm ++ codes ",format=qcow2,bus=virtio")
      ∷ codes "--disk"
      ∷ codes "user.iso,device=cdrom"
      ∷ codes "--network"
      ∷ codes "bridge=virbr0,model=virtio"
      ∷ codes "--os-type"
      ∷ codes "linux"
      ∷ codes "--virt-type"
      ∷ codes "kvm"
      ∷ codes "--noautoconsole"
      ∷ []

  unfoldable pub install_vm : Vm F → Text → Run (Unit {0})
  unfolding show_int
  install_vm vm dir = process (codes "virt-install") (install_args vm) dir

  abbrev pub attach_args : Vm F → Text → List Text
  attach_args vm dir =
      codes "attach-disk"
      ∷ domain_name vm
      ∷ join dir (codes "swap-space.img")
      ∷ codes "--target"
      ∷ codes "vdb"
      ∷ codes "--persistent"
      ∷ []

  unfoldable pub attach_swap_disk : Vm F → Text → Run (Unit {0})
  unfolding join
  attach_swap_disk vm dir = process (codes "virsh") (attach_args vm dir) dir

  unfoldable pub kill_domain : Vm F → Run (Unit {0})
  kill_domain vm = do act (destroy_domain vm.dom); act (undefine_domain vm.dom)

  unfoldable pub delete_dir_and_vm_file : Vm F → Text → Run (Unit {0})
  unfolding join
  delete_dir_and_vm_file vm dir = do
    act (remove_file (join dir (codes "user.iso")))
    act (remove_file (join dir (codes "meta-data")))
    act (remove_file (join dir (codes "user-data")))
    act (remove_file (join dir (image_name vm)))
    act (remove_file (join dir (codes "swap-space.img")))

  -- `kill` of the machine that `getVM` found.
  unfoldable pub kill_machine : Text → Option (Vm F) → Run (Unit {0})
  unfolding kill_domain delete_dir_and_vm_file join
  kill_machine path none = did [] tt
  kill_machine path (some vm) = do
    kill_domain vm
    delete_dir_and_vm_file vm (join path (domain_name vm))

-- `std::string (name)[0] == 'v'`.
abbrev pub is_ours : Text → Bool
is_ours [] = false
is_ours (c ∷ cs) = c == b'v'

-- `killAllRunningDomains` on the domains that libvirt lists, each with its name; the list of running
-- machines is empty afterwards.
unfoldable pub kill_all_running : List (ℕ × Text) → Run (Unit {0})
kill_all_running [] = did [] tt
kill_all_running ((dom, name) ∷ domains) =
    let rest = kill_all_running domains in
    if is_ours name
    then (act (destroy_domain (some dom)) >> act (undefine_domain (some dom)) >> rest)
    else rest
