-- ===== src/Libvirt/Provision/Files.antt =====
-- Provisioning and killing a machine leave the files of every other owner alone.
use cgroup_monitor.Prelude.{
  ℕ, ◌≡◌, refl, ap, ◌∙◌, ◌⊎◌, inl, inr, Bool, true, not, ◌&&◌, Option, none, some, List, [], ◌∷◌,
  ◌++◌, Text, codes, false, text_eq, text_eq_iff, Bool-cases, arith, ◌==◌, subst,
}
use cgroup_monitor.Floats.{Floats}
use cgroup_monitor.Utils.Tokenizer.{one_of}
use cgroup_monitor.Libvirt.Paths.{join}
use cgroup_monitor.Libvirt.Actions.{Action, process, after, ◌>>=◌, ◌>>◌, act}
use cgroup_monitor.Libvirt.Vm.{Vm}
use cgroup_monitor.Libvirt.Provision.{
  Keys, domain_name, image_name, create_dir_and_vm_file, create_user_data, create_meta_data,
  create_iso_data, resize_image, create_swap_disk, prepare_image, install_vm, attach_swap_disk,
  kill_domain, delete_dir_and_vm_file, kill_machine,
}
use cgroup_monitor.Libvirt.Provision.Booting.{
  Answers, await_for, wait_ip_vm, ssh_loop, mount_swap, provision_machine,
}
use cgroup_monitor.Libvirt.Provision.Disk.{
  Disk, Tools, IsDocumented, actions_of, exec, exec_all, exec_all-append, exec_all-outside, Within,
  Within-bind, Within-then, Within-act, Within-process, Within-attempt, Within-did, Within-exit,
  Within-wait, Within-if, Within-await, Within-enable_all,
}

one_of-here : (f : Text) (fs : List Text) → one_of (f ∷ fs) f ≡ true
unfolding one_of
one_of-here f fs = rw ((text_eq_iff f f).1 refl) refl

one_of-there : (g f : Text) (fs : List Text) → one_of fs f ≡ true → one_of (g ∷ fs) f ≡ true
unfolding one_of
one_of-there g f fs h = ground (arith, h)

-- The files of the machine with a name, in its directory.
abbrev pub machine_files : Text → Text → List Text
machine_files dir id =
    join dir (codes "user.iso")
    ∷ join dir (codes "meta-data")
    ∷ join dir (codes "user-data")
    ∷ join dir (codes "v" ++ id ++ codes ".qcow2")
    ∷ join dir (codes "swap-space.img")
    ∷ []

-- These files, and the one that `ssh` keeps for the user.
abbrev reach : Text → Text → Text → List Text
reach known dir id =
    join dir (codes "user.iso")
    ∷ join dir (codes "meta-data")
    ∷ join dir (codes "user-data")
    ∷ join dir (codes "v" ++ id ++ codes ".qcow2")
    ∷ join dir (codes "swap-space.img")
    ∷ known
    ∷ []

one_of-reach :
    (known dir id q : Text)
    → one_of (machine_files dir id) q ≡ false
    → text_eq known q ≡ false
    → one_of (reach known dir id) q ≡ false
unfolding one_of
one_of-reach known dir id q out other = ground (arith, out, other)

known_hosts-reached : (known dir id : Text) → one_of (reach known dir id) known ≡ true
known_hosts-reached known dir id = one_of-there _ _ _ (
    one_of-there _ _ _
      (one_of-there _ _ _ (one_of-there _ _ _ (one_of-there _ _ _ (one_of-here known [])))))

module _ (tools : Tools) (doc : IsDocumented tools) where
  ssh-Within :
      (files : List Text) (args : List Text) (dir : Text)
      → one_of files doc.known_hosts ≡ true
      → Within tools files (process (codes "ssh") args dir)
  unfolding process join
  ssh-Within files args dir known = Within-act tools files _ (elim (doc.ssh_makes args) [
    | inl nothing ↦ rw (nothing) tt
    | inr made ↦ rw (made, doc.known_hosts-IsAbsolute) (known, tt)
  ])

module _ (tools : Tools) {F : Floats} (doc : IsDocumented tools) where
  Within-ssh :
      (files : List Text) (h : Answers) (keys : Keys) (vm : Vm F) (dir : Text) (ss : List ℕ)
      → one_of files doc.known_hosts ≡ true
      → Within tools files (ssh_loop h keys vm dir ss)
  unfolding ssh_loop
  Within-ssh files h keys vm dir [] known = Within-wait tools _ files
  Within-ssh files h keys vm dir (s ∷ ss) known =
      Within-then tools files _ _ (ssh-Within tools doc files _ dir known) (
        Within-if tools files (s == 0) _ _ (Within-did tools files tt)
          (Within-ssh files h keys vm dir ss known))

  Within-mount_swap :
      (files : List Text) (h : Answers) (keys : Keys) (vm : Vm F) (dir : Text)
      → one_of files doc.known_hosts ≡ true
      → Within tools files (mount_swap h keys vm dir)
  unfolding mount_swap
  Within-mount_swap files h keys vm dir known =
      Within-then tools files _ _
        (Within-process tools files (codes "chmod") _ dir (doc.chmod_makes _))
        (Within-if tools files (h.chmod_status == 0) _ _
          (Within-ssh files h keys vm dir h.ssh_statuses known) (Within-exit tools _ files))

  Within-wait_ip_vm :
      (files : List Text) (h : Answers) (vm : Vm F) → Within tools files (wait_ip_vm h vm)
  unfolding wait_ip_vm
  Within-wait_ip_vm files h vm =
      Within-bind tools files (await_for _) _ (Within-await tools files _) (λ dom.
        Within-bind tools files (await_for _) _ (Within-await tools files _) (λ mac.
          Within-bind tools files (await_for _) _ (Within-await tools files _)
            (λ ip. Within-did tools files _)))

  Within-user_data :
      (keys : Keys) (vm : Vm F) (dir : Text)
      → Within tools (reach doc.known_hosts dir vm.id) (create_user_data keys vm dir)
  unfolding create_user_data
  Within-user_data keys vm dir =
      let files = reach doc.known_hosts dir vm.id in
      Within-then tools files _ _
        (Within-act tools files _ (
          one_of-there _ _ _ (one_of-there _ _ _ (one_of-here (join dir (codes "user-data")) _)),
          tt,
        ))
        (Within-act tools files _ tt)

  Within-meta_data :
      (vm : Vm F) (dir : Text)
      → Within tools (reach doc.known_hosts dir vm.id) (create_meta_data vm dir)
  unfolding create_meta_data
  Within-meta_data vm dir =
      let files = reach doc.known_hosts dir vm.id in
      Within-then tools files _ _
        (Within-act tools files _
          (one_of-there _ _ _ (one_of-here (join dir (codes "meta-data")) _), tt))
        (Within-act tools files _ tt)

  Within-iso_data :
      (vm : Vm F) (dir : Text)
      → Within tools (reach doc.known_hosts dir vm.id) (create_iso_data dir)
  unfolding create_iso_data process
  Within-iso_data vm dir =
      Within-act tools (reach doc.known_hosts dir vm.id) _
        (rw (doc.mkisofs_makes _ _) (one_of-here _ _, tt))

  Within-swap_disk :
      (vm : Vm F) (dir : Text)
      → Within tools (reach doc.known_hosts dir vm.id) (create_swap_disk vm dir)
  unfolding create_swap_disk process
  Within-swap_disk vm dir = Within-act tools (reach doc.known_hosts dir vm.id) _ (
      rw (doc.create_makes _ _ _) (
        one_of-there _ _ _
            (one_of-there _ _ _ (one_of-there _ _ _ (one_of-there _ _ _ (one_of-here _ _)))),
        tt,
      ))

  resize-Within :
      (files : List Text) (vm : Vm F) (dir : Text) → Within tools files (resize_image vm dir)
  unfolding resize_image
  resize-Within files vm dir =
      Within-process tools files (codes "qemu-img") _ dir (doc.resize_makes _ _)

  prepare-Within :
      (files : List Text) (vm : Vm F) (dir : Text) → Within tools files (prepare_image vm dir)
  unfolding prepare_image
  prepare-Within files vm dir =
      Within-process tools files (codes "virt-sysprep") _ dir (doc.sysprep_makes _)

  install-Within :
      (files : List Text) (vm : Vm F) (dir : Text) → Within tools files (install_vm vm dir)
  unfolding install_vm
  install-Within files vm dir =
      Within-process tools files (codes "virt-install") _ dir (doc.install_makes _)

  attach-Within :
      (files : List Text) (vm : Vm F) (dir : Text) → Within tools files (attach_swap_disk vm dir)
  unfolding attach_swap_disk
  attach-Within files vm dir = Within-process tools files (codes "virsh") _ dir (doc.virsh_makes _)

  Within-create :
      (succeeds : Action → Bool) (keys : Keys) (vm : Vm F) (dir : Text)
      → Within tools (reach doc.known_hosts dir vm.id) (create_dir_and_vm_file succeeds keys vm dir)
  unfolding create_dir_and_vm_file
  Within-create succeeds keys vm dir =
      let files = reach doc.known_hosts dir vm.id in
      Within-then tools files _ _ (Within-attempt tools files succeeds _ tt) (
        Within-then tools files _ _
          (Within-attempt tools files succeeds _ (
            one_of-there _ _ _ (
                one_of-there _ _ _ (one_of-there _ _ _ (one_of-here (join dir (image_name vm)) _))),
            tt,
          ))
          (Within-then tools files _ _ (Within-act tools files _ tt) (
            Within-then tools files _ _ (Within-user_data keys vm dir) (
              Within-then tools files _ _ (Within-meta_data vm dir) (
                Within-then tools files _ _ (Within-iso_data vm dir) (
                  Within-then tools files _ _
                    (resize-Within (reach doc.known_hosts dir vm.id) vm dir)
                    (Within-then tools files _ _ (Within-swap_disk vm dir)
                      (prepare-Within (reach doc.known_hosts dir vm.id) vm dir))))))))

  delete-Within :
      (vm : Vm F) (dir : Text)
      → Within tools (reach doc.known_hosts dir vm.id) (delete_dir_and_vm_file vm dir)
  unfolding delete_dir_and_vm_file
  delete-Within vm dir =
      let files = reach doc.known_hosts dir vm.id in
      Within-then tools files _ _ (Within-act tools files _ (one_of-here _ _, tt)) (
        Within-then tools files _ _
          (Within-act tools files _ (one_of-there _ _ _ (one_of-here _ _), tt))
          (Within-then tools files _ _
            (Within-act tools files _
              (one_of-there _ _ _ (one_of-there _ _ _ (one_of-here _ _)), tt))
            (Within-then tools files _ _
              (Within-act tools files _ (
                one_of-there _ _ _ (one_of-there _ _ _ (one_of-there _ _ _ (one_of-here _ _))),
                tt,
              ))
              (Within-act tools files _ (
                one_of-there _ _ _ (
                    one_of-there _ _ _ (one_of-there _ _ _ (one_of-there _ _ _ (one_of-here _ _)))),
                tt,
              )))))

  -- The machine that is killed first has the name of the new one.
  abbrev pub IsNamesake : Option (Vm F) → Text → Type 0
  IsNamesake none name = Unit
  IsNamesake (some v) name = v.id ≡ name

  kill-Within :
      (path : Text) (old : Option (Vm F)) (name : Text)
      → IsNamesake old name
      → Within tools
          (reach doc.known_hosts (join path (codes "v" ++ name)) name)
          (kill_machine path old)
  unfolding kill_machine kill_domain
  kill-Within path none name e = Within-did tools _ tt
  kill-Within path (some v) name e =
      let files = reach doc.known_hosts (join path (codes "v" ++ name)) name in
      Within-then tools files _ _
        (Within-then tools files _ _ (Within-act tools files _ tt) (Within-act tools files _ tt))
        (subst
          (λ n.
            Within tools (reach doc.known_hosts (join path (codes "v" ++ n)) n)
              (delete_dir_and_vm_file v (join path (domain_name v))))
          e (delete-Within v (join path (domain_name v))))

  provision-Within :
      (h : Answers) (keys : Keys) (path : Text) (old : Option (Vm F)) (vm : Vm F)
      → IsNamesake old vm.id
      → Within tools
          (reach doc.known_hosts (join path (domain_name vm)) vm.id)
          (provision_machine h keys path old vm)
  unfolding provision_machine
  provision-Within h keys path old vm e =
      let dir = join path (domain_name vm) in
      let files = reach doc.known_hosts dir vm.id in
      Within-then tools files _ _ (kill-Within path old vm.id e) (
        Within-then tools files _ _ (Within-create h.succeeds keys vm dir) (
          Within-then tools files _ _ (install-Within files vm dir) (
            Within-bind tools files _ _ (Within-wait_ip_vm files h vm) (λ vm'.
              Within-then tools files _ _ (attach-Within files vm' dir) (
                Within-then tools files _ _
                  (Within-mount_swap files h keys vm' dir
                    (known_hosts-reached doc.known_hosts dir vm.id))
                  (Within-bind tools files _ _ (Within-enable_all tools files h vm'.id 0 vm'.vcpus)
                    (λ fs. Within-did tools files _)))))))

  deleted :
      (vm : Vm F) (dir : Text) (d : Disk) (q : Text)
      → exec_all tools (actions_of (delete_dir_and_vm_file vm dir)) d q
        ≡ (not (one_of (machine_files dir vm.id) q) && d q)
  unfolding delete_dir_and_vm_file ◌>>◌ ◌>>=◌ act after exec one_of
  deleted vm dir d q = ground arith

  -- Whatever the host answers, and however a provisioning ends, it makes and deletes no file but five, which
  -- are in the directory of the machine, and the one in which `ssh` keeps the hosts that the user knows, if
  -- the tools make the files that their manuals say and the machine that is killed first, if there is one, has
  -- the same name. The deletion in `kill` then leaves none of the five, and every other file but that of
  -- `ssh` is there if it was before the provisioning, and only then.
  pub provision-leaves :
      (h : Answers) (keys : Keys) (path : Text) (old : Option (Vm F)) (vm : Vm F)
      → IsNamesake old vm.id
      → (d : Disk) (q : Text)
      → ((one_of (machine_files (join path (domain_name vm)) vm.id) q ≡ true)
          ⊎ (doc.known_hosts ≡ q)
          ⊎ (exec_all tools (actions_of (provision_machine h keys path old vm)) d q ≡ d q))
        × ((doc.known_hosts ≡ q)
            ⊎ (exec_all tools
                  (actions_of (provision_machine h keys path old vm)
                    ++ actions_of (delete_dir_and_vm_file vm (join path (domain_name vm))))
                  d
                  q
                ≡ (not (one_of (machine_files (join path (domain_name vm)) vm.id) q) && d q)))
  unfolding Within
  provision-leaves h keys path old vm e d q =
      let dir = join path (domain_name vm) in
      let files = machine_files dir vm.id in
      let acts = actions_of (provision_machine h keys path old vm) in
      let dels = actions_of (delete_dir_and_vm_file vm dir) in
      let c = provision-Within h keys path old vm e in
      let whole : exec_all tools (acts ++ dels) d q
          ≡ (not (one_of files q) && exec_all tools acts d q) =
        ap (λ (x : Disk). x q) (exec_all-append tools acts dels d)
        ∙ deleted vm dir (exec_all tools acts d) q in
      elim (Bool-cases (one_of files q)) [
        | inl own ↦ (inl own, inr (ground (arith, own, whole)))
        | inr out ↦ elim (Bool-cases (text_eq doc.known_hosts q)) [
          | inl known ↦
              let same = (text_eq_iff doc.known_hosts q).0 known in (inr (inl same), inl same)
          | inr other ↦
              let kept =
                exec_all-outside tools (reach doc.known_hosts dir vm.id) acts d q c
                  (one_of-reach doc.known_hosts dir vm.id q out other) in
              (inr (inr kept), inr (ground (arith, out, whole, kept)))
        ]
      ]
