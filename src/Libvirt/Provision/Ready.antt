-- ===== src/Libvirt/Provision/Ready.antt =====
-- Provisioning a machine comes to an end when the host answers.
use cgroup_monitor.Prelude.{
  ℕ, suc, ◌≡◌, refl, ap, ◌∙◌, Bool, true, false, Option, none, some, List, [], ◌∷◌, ◌++◌, Text,
  codes, All, ◌==◌, length, if◌then◌else◌,
}
use cgroup_monitor.Floats.{Floats}
use cgroup_monitor.Libvirt.Paths.{join}
use cgroup_monitor.Libvirt.Actions.{
  Action, Run, did, process, act, attempt, await, after, ◌>>=◌, ◌>>◌,
}
use cgroup_monitor.Libvirt.Vm.{Vm}
use cgroup_monitor.Libvirt.Cgroup.Tree.{Node, Files, slice, enable}
use cgroup_monitor.Libvirt.Cgroup.Search.{Lacks, Shows, directories, enable-Shows}
use cgroup_monitor.Libvirt.Provision.{
  Keys, domain_name, create_dir_and_vm_file, create_user_data, create_meta_data, create_iso_data,
  resize_image, create_swap_disk, prepare_image, install_vm, attach_swap_disk, kill_domain,
  delete_dir_and_vm_file, kill_machine,
}
use cgroup_monitor.Libvirt.Provision.Booting.{
  Answers, await_for, known, mac_of, leased, wait_ip_vm, ssh_loop, mount_swap, enable_all,
  provision_machine,
}

-- A run that ends with a result.
Gives : {A : Type 0} → A → Run A → Type 0
Gives a r = (acts : List Action) × (r ≡ did acts a)

Gives-bind :
    {A B : Type 0} (a : A) (b : B) (m : Run A) (f : A → Run B)
    → Gives a m
    → Gives b (f a)
    → Gives b (m >>= f)
unfolding Gives ◌>>=◌ after
Gives-bind a b m f (acts, e) (more, e') = (acts ++ more, rw (e, e') refl)

Gives-then :
    {B : Type 0} (b : B) (m : Run (Unit {0})) (n : Run B)
    → Gives tt m
    → Gives b n
    → Gives b (m >> n)
unfolding ◌>>◌
Gives-then b m n g h = Gives-bind tt b m _ g h

Gives-if :
    {A : Type 0} (a : A) (b : Bool) (r s : Run A)
    → Gives a r
    → Gives a s
    → Gives a (if b then r else s)
Gives-if a true r s g k = g
Gives-if a false r s g k = k

Gives-did : {A : Type 0} (a : A) (acts : List Action) → Gives a (did acts a)
unfolding Gives
Gives-did a acts = (acts, refl)

Gives-act : (a : Action) → Gives tt (act a)
unfolding Gives act
Gives-act a = (a ∷ [], refl)

Gives-process : (cmd : Text) (args : List Text) (dir : Text) → Gives tt (process cmd args dir)
unfolding process
Gives-process cmd args dir = Gives-act _

Gives-attempt :
    (succeeds : Action → Bool) (a : Action) → succeeds a ≡ true → Gives tt (attempt succeeds a)
unfolding attempt
Gives-attempt succeeds a e = rw e (Gives-act a)

-- The first answer that ends a loop.
abbrev pub IsAnswered : {A B : Type 0} → (A → Option B) → List A → B → Type 0
IsAnswered {A = A} f xs b =
    (before : List A) × (x : A) × (more : List A) × (xs ≡ before ++ x ∷ more)
    × All (λ y. f y ≡ none) before
    × (f x ≡ some b)

await_behind :
    {A B : Type 0} (f : A → Option B) (before : List A) (x : A) (more : List A) (b : B)
    → All (λ y. f y ≡ none) before
    → f x ≡ some b
    → await f (before ++ x ∷ more) ≡ some b
unfolding await
await_behind f [] x more b ns here = rw here refl
await_behind f (y ∷ ys) x more b (n, ns) here = rw n (await_behind f ys x more b ns here)

await-IsAnswered :
    {A B : Type 0} (f : A → Option B) (xs : List A) (b : B)
    → IsAnswered f xs b
    → await f xs ≡ some b
await-IsAnswered f xs b (before, x, more, e, ns, here) =
    ap (await f) e ∙ await_behind f before x more b ns here

Gives-await :
    {A B : Type 0} (f : A → Option B) (xs : List A) (b : B)
    → IsAnswered f xs b
    → Gives b (await_for (await f xs))
unfolding await_for
Gives-await f xs b h = rw (await-IsAnswered f xs b h) (Gives-did b [])

-- What each vCPU sees of the control groups: in the end, a group of its machine.
abbrev pub SeesGroup : Bool → Text → List Node → Type 0
SeesGroup v2 name trees =
    (before : List Node) × (tree : Node) × (later : List Node) × (trees ≡ before ++ tree ∷ later)
    × All (λ t. Lacks (codes "v" ++ name) (directories (slice v2) t)) before
    × Shows (codes "v" ++ name) (slice v2) tree

-- A host that answers: its file system does not fail, the domain appears, with a hardware address, which
-- gets a lease, the key can be protected, some `ssh` succeeds, and the control groups appear.
pub record Answering {F : Floats} (h : Answers) (vm : Vm F) (mac ip : Text) : Type 0 where
  pub well : (a : Action) → h.succeeds a ≡ true
  pub domain : ℕ
  pub appears : IsAnswered known h.domains domain
  pub has_mac : IsAnswered mac_of h.descriptions mac
  pub has_lease : IsAnswered (leased mac) h.leases ip
  pub protects : h.chmod_status ≡ 0
  pub connects : (fails : List ℕ) × (more : List ℕ) × (h.ssh_statuses ≡ fails ++ 0 ∷ more)
  pub groups : (i : ℕ) → SeesGroup h.v2 vm.id (h.trees i)

enables :
    (h : Answers) (name : Text) (i : ℕ)
    → SeesGroup h.v2 name (h.trees i)
    → (fs : Files) × (enable h.read_number h.v2 name i (h.trees i) ≡ some fs)
enables h name i (before, tree, later, e, l, s) =
    let (group, fs, first, found, limit) =
      enable-Shows h.read_number h.v2 name i before tree later l s in
    (fs, ap (enable h.read_number h.v2 name i) e ∙ found)

Gives-some : {B : Type 0} (o : Option B) (b : B) → o ≡ some b → Gives b (await_for o)
unfolding await_for
Gives-some o b e = rw e (Gives-did b [])

Gives-enable_all :
    {A : Type 0} (h : Answers) (name : Text) (i : ℕ) (cs : List A)
    → ((j : ℕ) → SeesGroup h.v2 name (h.trees j))
    → (files : List Files) × (length files ≡ length cs) × Gives files (enable_all h name i cs)
unfolding enable_all
Gives-enable_all h name i [] s = ([], refl, Gives-did [] [])
Gives-enable_all h name i (c ∷ cs) s =
    let (fs, e) = enables h name i (s i) in
    let (more, same, g) = Gives-enable_all h name (suc i) cs s in
    (
      fs ∷ more,
      ap suc same,
      Gives-bind fs (fs ∷ more) _ _ (Gives-some _ fs e)
          (Gives-bind more (fs ∷ more) _ _ g (Gives-did (fs ∷ more) [])),
    )

module _ {F : Floats} (h : Answers) where
  Gives-ssh :
      (keys : Keys) (vm : Vm F) (dir : Text) (fails more : List ℕ)
      → Gives tt (ssh_loop h keys vm dir (fails ++ 0 ∷ more))
  unfolding ssh_loop
  Gives-ssh keys vm dir [] more =
      Gives-then tt _ _ (Gives-process (codes "ssh") _ dir) (Gives-did tt [])
  Gives-ssh keys vm dir (s ∷ fails) more =
      Gives-then tt _ _ (Gives-process (codes "ssh") _ dir)
        (Gives-if tt (s == 0) _ _ (Gives-did tt []) (Gives-ssh keys vm dir fails more))

  Gives-mount_swap :
      (keys : Keys) (vm : Vm F) (dir : Text) (fails more : List ℕ)
      → h.chmod_status ≡ 0
      → h.ssh_statuses ≡ fails ++ 0 ∷ more
      → Gives tt (mount_swap h keys vm dir)
  unfolding mount_swap
  Gives-mount_swap keys vm dir fails more p e =
      Gives-then tt _ _ (Gives-process (codes "chmod") _ dir)
        (rw (p, e) (Gives-ssh keys vm dir fails more))

  Gives-create :
      (keys : Keys) (vm : Vm F) (dir : Text)
      → ((a : Action) → h.succeeds a ≡ true)
      → Gives tt (create_dir_and_vm_file h.succeeds keys vm dir)
  unfolding create_dir_and_vm_file create_user_data create_meta_data create_iso_data resize_image
      create_swap_disk prepare_image
  Gives-create keys vm dir well = Gives-then tt _ _ (Gives-attempt h.succeeds _ (well _)) (
      Gives-then tt _ _ (Gives-attempt h.succeeds _ (well _)) (
        Gives-then tt _ _ (Gives-act _) (
          Gives-then tt _ _ (Gives-then tt _ _ (Gives-act _) (Gives-act _)) (
            Gives-then tt _ _ (Gives-then tt _ _ (Gives-act _) (Gives-act _)) (
              Gives-then tt _ _ (Gives-process _ _ dir) (
                Gives-then tt _ _ (Gives-process _ _ dir)
                  (Gives-then tt _ _ (Gives-process _ _ dir) (Gives-process _ _ dir))))))))

  Gives-kill : (path : Text) (old : Option (Vm F)) → Gives tt (kill_machine path old)
  unfolding kill_machine kill_domain delete_dir_and_vm_file
  Gives-kill path none = Gives-did tt []
  Gives-kill path (some v) = Gives-then tt _ _ (Gives-then tt _ _ (Gives-act _) (Gives-act _)) (
      Gives-then tt _ _ (Gives-act _) (
        Gives-then tt _ _ (Gives-act _)
          (Gives-then tt _ _ (Gives-act _) (Gives-then tt _ _ (Gives-act _) (Gives-act _)))))

  Gives-wait_ip_vm :
      (vm : Vm F) (dom : ℕ) (mac ip : Text)
      → IsAnswered known h.domains dom
      → IsAnswered mac_of h.descriptions mac
      → IsAnswered (leased mac) h.leases ip
      → Gives (record vm { mac = mac; ip = ip }) (wait_ip_vm h vm)
  unfolding wait_ip_vm
  Gives-wait_ip_vm vm dom mac ip d m i =
      let vm' : Vm F = record vm { mac = mac; ip = ip } in
      Gives-bind dom vm' _ _ (Gives-await known h.domains dom d) (
        Gives-bind mac vm' _ _ (Gives-await mac_of h.descriptions mac m)
          (Gives-bind ip vm' _ _ (Gives-await (leased mac) h.leases ip i) (Gives-did vm' [])))

  -- On a host whose file system does not fail and where the domain appears, has a hardware address that gets
  -- a lease, the key can be protected, some run of `ssh` succeeds, and each vCPU sees a control group of the
  -- machine, `provision` comes to an end. The machine has this hardware address and the address of the
  -- lease, and all its vCPUs are enabled.
  pub provision-Answering :
      (keys : Keys) (path : Text) (old : Option (Vm F)) (vm : Vm F) (mac ip : Text)
      → Answering h vm mac ip
      → (acts : List Action) × (files : List Files) × (provision_machine h keys path old vm
          ≡ did acts (record vm { dom = h.domain; mac = mac; ip = ip }, files))
        × (length files ≡ length vm.vcpus)
  unfolding provision_machine install_vm attach_swap_disk Gives
  provision-Answering keys path old vm mac ip a =
      let vm' : Vm F = record vm { mac = mac; ip = ip } in
      let (fails, more, statuses) = a.connects in
      let (files, same, enabled) = Gives-enable_all h vm.id 0 vm.vcpus a.groups in
      let r : Vm F × List Files = (record vm' { dom = h.domain }, files) in
      let dir = join path (domain_name vm) in
      let (acts, e) = Gives-then r _ _ (Gives-kill path old) (
        Gives-then r _ _ (Gives-create keys vm dir a.well) (
          Gives-then r _ _ (Gives-process (codes "virt-install") _ dir) (
            Gives-bind vm' r _ _
              (Gives-wait_ip_vm vm a.domain mac ip a.appears a.has_mac a.has_lease)
              (Gives-then r _ _ (Gives-process (codes "virsh") _ dir) (
                Gives-then r _ _ (Gives-mount_swap keys vm' dir fails more a.protects statuses)
                  (Gives-bind files r _ _ enabled (Gives-did r []))))))) in
      (acts, files, e, same)
