-- ===== src/Libvirt/Provision/Booting.antt =====
-- src/monitor/libvirt/client.cc: the whole of `provision`, with its loops that wait for the machine.
use cgroup_monitor.Prelude.{
  ℕ, suc, Bool, Option, none, some, List, [], ◌∷◌, ◌++◌, Text, codes, text_eq, if◌then◌else◌, ◌==◌,
}
use cgroup_monitor.Floats.{Floats}
use cgroup_monitor.Libvirt.Paths.{join}
use cgroup_monitor.Libvirt.Actions.{Action, Run, did, exits, waits, ◌>>=◌, ◌>>◌, process, await}
use cgroup_monitor.Libvirt.Vm.{Vm}
use cgroup_monitor.Libvirt.Cgroup.Tree.{Node, Files, enable}
use cgroup_monitor.Libvirt.Provision.{
  Keys, domain_name, create_dir_and_vm_file, install_vm, attach_swap_disk, kill_machine,
}

-- A lease of the network: a hardware address and a network address.
abbrev pub Lease : Type 0
Lease = Text × Text

-- What the host answers. Each list holds the answers to one loop, in order: whether the domain is
-- there; the hardware address in its description, `none` if there is none or the parser throws; the leases in
-- the status file, `none` if its parser throws; and the status of each `ssh`.
pub record Answers : Type 0 where
  pub succeeds : Action → Bool
  pub domains : List (Option ℕ)
  pub descriptions : List (Option Text)
  pub leases : List (Option (List Lease))
  pub chmod_status : ℕ
  pub ssh_statuses : List ℕ
  pub domain : Option ℕ
  pub v2 : Bool
  pub read_number : Text → ℕ
  -- The trees that each vCPU sees.
  pub trees : ℕ → List Node

abbrev pub nonempty : Text → Option Text
nonempty [] = none
nonempty (c ∷ cs) = some (c ∷ cs)

abbrev pub mac_of : Option Text → Option Text
mac_of none = none
mac_of (some mac) = nonempty mac

-- The loop over the leases; it leaves at the first with the hardware address.
unfoldable pub ip_of : Text → List Lease → Text
ip_of mac [] = []
ip_of mac (lease ∷ more) =
    let rest = ip_of mac more in if text_eq lease.0 mac then lease.1 else rest

abbrev pub leased : Text → Option (List Lease) → Option Text
leased mac none = none
leased mac (some ls) = nonempty (ip_of mac ls)

-- The result of a loop, once it ends.
unfoldable pub await_for : {A : Type 0} → Option A → Run A
await_for none = waits []
await_for (some a) = did [] a

abbrev pub known : Option ℕ → Option ℕ
known d = d

abbrev pub key_of : Keys → Text
key_of keys = join keys.key_path (codes "key")

-- The loop that enables the vCPUs of a machine, from the i-th on.
unfoldable pub enable_all : {A : Type 0} → Answers → Text → ℕ → List A → Run (List Files)
unfolding enable
enable_all h name i [] = did [] []
enable_all h name i (c ∷ cs) =
    let rest = enable_all h name (suc i) cs in
    await_for (enable h.read_number h.v2 name i (h.trees i)) >>= λ files.
    rest >>= λ more. did [] (files ∷ more)

module _ {F : Floats} (h : Answers) where
  -- The last loop of `waitIpVM`.
  abbrev pub with_ip : Vm F → Text → Run (Vm F)
  with_ip vm mac = do
    ip ← await_for (await (leased mac) h.leases)
    did [] (record vm { mac = mac; ip = ip })

  unfoldable pub wait_ip_vm : Vm F → Run (Vm F)
  unfolding await ip_of
  wait_ip_vm vm = do
    dom ← await_for (await known h.domains)
    mac ← await_for (await mac_of h.descriptions)
    with_ip vm mac

  abbrev pub ssh_args : Keys → Vm F → List Text
  ssh_args keys vm =
      codes "-o"
      ∷ codes "StrictHostKeyChecking=no"
      ∷ (vm.user_name ++ codes "@" ++ vm.ip)
      ∷ codes "-i"
      ∷ key_of keys
      ∷ codes "sudo mkswap /dev/vdb ; sudo swapon /dev/vdb"
      ∷ []

  -- The loop of `mountSwap`, until a run of `ssh` succeeds.
  unfoldable pub ssh_loop : Keys → Vm F → Text → List ℕ → Run (Unit {0})
  unfolding join
  ssh_loop keys vm dir [] = waits []
  ssh_loop keys vm dir (status ∷ more) =
      let rest = ssh_loop keys vm dir more in
      process (codes "ssh") (ssh_args keys vm) dir >> (if status == 0 then did [] tt else rest)

  unfoldable pub mount_swap : Keys → Vm F → Text → Run (Unit {0})
  unfolding ssh_loop
  mount_swap keys vm dir = do
    process (codes "chmod") (codes "400" ∷ key_of keys ∷ []) dir
    if h.chmod_status == 0 then ssh_loop keys vm dir h.ssh_statuses else exits []

  -- `provision` of a machine, when `old` is what `getVM` finds under its name.
  unfoldable pub provision_machine : Keys → Text → Option (Vm F) → Vm F → Run (Vm F × List Files)
  unfolding kill_machine create_dir_and_vm_file install_vm wait_ip_vm attach_swap_disk mount_swap
      enable_all join
  provision_machine keys path old vm = do
    kill_machine path old
    create_dir_and_vm_file h.succeeds keys vm (join path (domain_name vm))
    install_vm vm (join path (domain_name vm))
    vm' ← wait_ip_vm vm
    attach_swap_disk vm' (join path (domain_name vm))
    mount_swap keys vm' (join path (domain_name vm))
    files ← enable_all h vm'.id 0 vm'.vcpus
    did [] (record vm' { dom = h.domain }, files)
