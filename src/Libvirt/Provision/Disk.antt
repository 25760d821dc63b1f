-- ===== src/Libvirt/Provision/Disk.antt =====
-- The files that a machine leaves on the disk.
use cgroup_monitor.Prelude.{
  ◌⊎◌, ℕ, suc, ◌≡◌, refl, subst, ◌∙◌, inl, inr, Bool, true, false, not, ◌&&◌, ◌||◌, Option, none,
  some, List, [], ◌∷◌, ◌++◌, map, Text, codes, text_eq, text_eq_iff, Bool-cases, All, arith,
  if◌then◌else◌,
}
use cgroup_monitor.Utils.Tokenizer.{one_of}
use cgroup_monitor.Libvirt.Paths.{join, is_absolute}
use cgroup_monitor.Libvirt.Actions.{
  Action, create_directories, copy_file, chmod, write_file, remove_file, sub_process,
  destroy_domain, undefine_domain, Run, did, throws, exits, waits, after, ◌>>=◌, ◌>>◌, act, process,
  attempt,
}
use cgroup_monitor.Libvirt.Cgroup.Tree.{enable}
use cgroup_monitor.Libvirt.Provision.Booting.{Answers, await_for, enable_all}

-- Which files there are, but for those that libvirt keeps of its own; their contents and modes are left out.
abbrev pub Disk : Type 0
Disk = Text → Bool

-- The files that a tool makes, by its arguments, in the directory in which it runs.
abbrev pub Tools : Type 0
Tools = Text → List Text → List Text

-- What their manuals say of the tools: `mkisofs` makes the file after -o, `qemu-img create` the file that
-- it is given, `ssh` may make the file of the hosts that the user knows, and the others make none.
pub record IsDocumented (tools : Tools) : Type 0 where
  pub mkisofs_makes :
      (f : Text) (more : List Text) → tools (codes "mkisofs") (codes "-o" ∷ f ∷ more) ≡ f ∷ []
  pub create_makes :
      (format f size : Text)
      → tools (codes "qemu-img") (codes "create" ∷ codes "-f" ∷ format ∷ f ∷ size ∷ []) ≡ f ∷ []
  pub resize_makes :
      (f size : Text) → tools (codes "qemu-img") (codes "resize" ∷ f ∷ size ∷ []) ≡ []
  pub sysprep_makes : (args : List Text) → tools (codes "virt-sysprep") args ≡ []
  pub install_makes : (args : List Text) → tools (codes "virt-install") args ≡ []
  pub virsh_makes : (args : List Text) → tools (codes "virsh") args ≡ []
  pub known_hosts : Text
  pub known_hosts-IsAbsolute : is_absolute known_hosts ≡ true
  pub ssh_makes :
      (args : List Text)
      → (tools (codes "ssh") args ≡ []) ⊎ (tools (codes "ssh") args ≡ known_hosts ∷ [])
  pub chmod_makes : (args : List Text) → tools (codes "chmod") args ≡ []

abbrev pub actions_of : {A : Type 0} → Run A → List Action
actions_of (did acts a) = acts
actions_of (throws acts) = acts
actions_of (exits acts) = acts
actions_of (waits acts) = acts

module _ (tools : Tools) where
  abbrev pub touched : Action → List Text
  touched (create_directories p) = []
  touched (copy_file from to) = to ∷ []
  touched (chmod p mode) = []
  touched (write_file p content) = p ∷ []
  touched (remove_file p) = p ∷ []
  touched (sub_process cmd args dir) = map (join dir) (tools cmd args)
  touched (destroy_domain dom) = []
  touched (undefine_domain dom) = []

  abbrev pub is_removal : Action → Bool
  is_removal (remove_file p) = true
  is_removal _ = false

  -- The disk after an action.
  unfoldable pub exec : Action → Disk → Disk
  unfolding one_of
  exec a d q =
      if is_removal a then not (one_of (touched a) q) && d q else one_of (touched a) q || d q

  abbrev pub exec_all : List Action → Disk → Disk
  exec_all [] d = d
  exec_all (a ∷ acts) d = exec_all acts (exec a d)

  pub exec_all-append :
      (acts bs : List Action) (d : Disk) → exec_all (acts ++ bs) d ≡ exec_all bs (exec_all acts d)
  exec_all-append [] bs d = refl
  exec_all-append (a ∷ acts) bs d = exec_all-append acts bs (exec a d)

  -- An action that touches only some files.
  abbrev pub Confined : List Text → Action → Type 0
  Confined files a = All (λ f. one_of files f ≡ true) (touched a)

  one_of-Confined :
      (files fs : List Text) (q : Text)
      → All (λ f. one_of files f ≡ true) fs
      → one_of files q ≡ false
      → one_of fs q ≡ false
  unfolding one_of
  one_of-Confined files [] q c out = refl
  one_of-Confined files (f ∷ fs) q (c, cs) out = elim (Bool-cases (text_eq f q)) [
    | inl same ↦
        let member : one_of files q ≡ true =
          subst (λ g. one_of files g ≡ true) ((text_eq_iff f q).0 same) c in
        absurd (ground (arith, out, member))
    | inr other ↦ rw other (one_of-Confined files fs q cs out)
  ]

  pub exec_all-outside :
      (files : List Text) (acts : List Action) (d : Disk) (q : Text)
      → All (Confined files) acts
      → one_of files q ≡ false
      → exec_all acts d q ≡ d q
  unfolding exec
  exec_all-outside files [] d q cs out = refl
  exec_all-outside files (a ∷ acts) d q (c, cs) out =
      exec_all-outside files acts (exec a d) q cs out
      ∙ ground (arith, one_of-Confined files (touched a) q c out)

  -- A run whose actions touch only some files, however it ends.
  unfoldable pub Within : {A : Type 0} → List Text → Run A → Type 0
  Within files r = All (Confined files) (actions_of r)

  All-append : (P : Action → Type 0) (xs ys : List Action) → All P xs → All P ys → All P (xs ++ ys)
  All-append P [] ys h k = k
  All-append P (x ∷ xs) ys (p, h) k = (p, All-append P xs ys h k)

  Within-after :
      {A : Type 0} (files : List Text) (acts : List Action) (r : Run A)
      → All (Confined files) acts
      → Within files r
      → Within files (after acts r)
  unfolding Within after
  Within-after files acts (did more a) h k = All-append _ acts more h k
  Within-after files acts (throws more) h k = All-append _ acts more h k
  Within-after files acts (exits more) h k = All-append _ acts more h k
  Within-after files acts (waits more) h k = All-append _ acts more h k

  pub Within-bind :
      {A B : Type 0} (files : List Text) (m : Run A) (f : A → Run B)
      → Within files m
      → ((a : A) → Within files (f a))
      → Within files (m >>= f)
  unfolding Within ◌>>=◌
  Within-bind files (did acts a) f h k = Within-after files acts (f a) h (k a)
  Within-bind files (throws acts) f h k = h
  Within-bind files (exits acts) f h k = h
  Within-bind files (waits acts) f h k = h

  pub Within-then :
      {B : Type 0} (files : List Text) (m : Run (Unit {0})) (n : Run B)
      → Within files m
      → Within files n
      → Within files (m >> n)
  unfolding ◌>>◌
  Within-then files m n h k = Within-bind files m _ h (λ _. k)

  pub Within-act : (files : List Text) (a : Action) → Confined files a → Within files (act a)
  unfolding Within act
  Within-act files a c = (c, tt)

  pub Within-process :
      (files : List Text) (cmd : Text) (args : List Text) (dir : Text)
      → tools cmd args ≡ []
      → Within files (process cmd args dir)
  unfolding process
  Within-process files cmd args dir e = Within-act files (sub_process cmd args dir) (rw e tt)

  pub Within-attempt :
      (files : List Text) (succeeds : Action → Bool) (a : Action)
      → Confined files a
      → Within files (attempt succeeds a)
  unfolding Within attempt act
  Within-attempt files succeeds a c = elim (Bool-cases (succeeds a)) [
    | inl well ↦ rw well (c, tt)
    | inr badly ↦ rw badly tt
  ]

  pub Within-did : {A : Type 0} (files : List Text) (a : A) → Within files (did [] a)
  unfolding Within
  Within-did files a = tt

  pub Within-exit : (A : Type 0) (files : List Text) → Within {A = A} files (exits [])
  unfolding Within
  Within-exit A files = tt

  pub Within-wait : (A : Type 0) (files : List Text) → Within {A = A} files (waits [])
  unfolding Within
  Within-wait A files = tt

  pub Within-if :
      {A : Type 0} (files : List Text) (b : Bool) (r s : Run A)
      → Within files r
      → Within files s
      → Within files (if b then r else s)
  Within-if files true r s h k = h
  Within-if files false r s h k = k

  pub Within-await : {A : Type 0} (files : List Text) (a : Option A) → Within files (await_for a)
  unfolding Within await_for
  Within-await files none = tt
  Within-await files (some a) = tt

  pub Within-enable_all :
      {A : Type 0} (files : List Text) (h : Answers) (name : Text) (i : ℕ) (cs : List A)
      → Within files (enable_all h name i cs)
  unfolding enable_all
  Within-enable_all files h name i [] = Within-did files []
  Within-enable_all files h name i (c ∷ cs) =
      Within-bind files (await_for (enable h.read_number h.v2 name i (h.trees i))) _
        (Within-await files _)
        (λ f.
          Within-bind files (enable_all h name (suc i) cs) _
            (Within-enable_all files h name (suc i) cs) (λ more. Within-did files _))
