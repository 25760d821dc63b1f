-- ===== src/Libvirt/Cgroup/Search.antt =====
-- What the search for a group finds.
use cgroup_monitor.Prelude.{
  ℕ, ◌<◌, ◌≡◌, refl, ap, sym, subst, ◌∙◌, ◌⊎◌, inl, inr, Bool, true, false, some, List, [], ◌∷◌,
  ◌++◌, Text, codes, text_eq, text_eq_iff, Bool-cases, All, arith, if◌then◌else◌, length,
  length-append,
}
use cgroup_monitor.Utils.Decimal.{decimal}
use cgroup_monitor.Libvirt.Paths.{join, needs_slash}
use cgroup_monitor.Libvirt.Cgroup.Tree.{
  Node, file, directory, Entries, no_entries, named, contains, recursive_search, search_entries,
  wait_group, Files, slice, files_of, located, enable,
}

-- The directories of a tree, each before those in it.
abbrev mutual
  pub directories : Text → Node → List Text
  directories path file = []
  directories path (directory es) = path ∷ inner_directories path es

  pub inner_directories : Text → Entries → List Text
  inner_directories path no_entries = []
  inner_directories path (named n node es) =
      directories (join path n) node ++ inner_directories path es

abbrev pub Lacks : Text → List Text → Type 0
Lacks name = All (λ p. contains name p ≡ false)

-- The first of the paths that contains the name.
abbrev pub IsFirst : Text → List Text → Text → Type 0
IsFirst name ps r =
    (before : List Text) × (after : List Text) × (ps ≡ before ++ r ∷ after)
    × Lacks name before
    × (contains name r ≡ true)
    × (0 < length r)

abbrev pub First : Text → List Text → Text → Type 0
First name ps r = IsFirst name ps r ⊎ ((r ≡ []) × Lacks name ps)

All-append : {A : Type 0} (P : A → Type 0) (xs ys : List A) → All P xs → All P ys → All P (xs ++ ys)
All-append P [] ys h k = k
All-append P (x ∷ xs) ys (p, h) k = (p, All-append P xs ys h k)

append_assoc : {A : Type 0} (xs ys zs : List A) → (xs ++ ys) ++ zs ≡ xs ++ (ys ++ zs)
append_assoc [] ys zs = refl
append_assoc (x ∷ xs) ys zs = ap (◌∷◌ x) (append_assoc xs ys zs)

-- The first of two lists is that of the first list, if it has one.
First-left :
    (name : Text) (ps qs : List Text) (r : Text) → IsFirst name ps r → IsFirst name (ps ++ qs) r
First-left name ps qs r (before, after, e, l, c, p) =
    (before, after ++ qs, ap (λ xs. xs ++ qs) e ∙ append_assoc before (r ∷ after) qs, l, c, p)

First-right :
    (name : Text) (ps qs : List Text) (r : Text)
    → Lacks name ps
    → First name qs r
    → First name (ps ++ qs) r
First-right name ps qs r l (inl (before, after, e, m, c, p)) = inl (
  ps ++ before,
  after,
  ap (λ xs. ps ++ xs) e ∙ sym (append_assoc ps before (r ∷ after)),
  All-append _ ps before l m,
  c,
  p,
)
First-right name ps qs r l (inr (e, m)) = inr (e, All-append _ ps qs l m)

First-append :
    (name : Text) (ps qs : List Text) (ret rest : Text)
    → First name ps ret
    → First name qs rest
    → First name (ps ++ qs) (if text_eq ret [] then rest else ret)
First-append name ps qs ret rest f g = elim (Bool-cases (text_eq ret [])) [
  | inl none_there ↦ rw none_there (elim f [
    | inl (before, after, e, l, c, p) ↦
        absurd (omega (arith, p, ap length ((text_eq_iff ret []).0 none_there)))
    | inr (e, l) ↦ First-right name ps qs rest l g
  ])
  | inr found ↦ rw found (elim f [
    | inl first ↦ inl (First-left name ps qs ret first)
    | inr (e, l) ↦ absurd (ground (arith, found, (text_eq_iff ret []).1 e))
  ])
]

First-cons :
    (name path : Text) (ps : List Text) (r : Text)
    → 0 < length path
    → First name ps r
    → First name (path ∷ ps) (if contains name path then path else r)
First-cons name path ps r h f = First-if (contains name path) refl
  where
    First-if : (b : Bool) → contains name path ≡ b → First name (path ∷ ps) (if b then path else r)
    First-if true here = inl ([], ps, refl, tt, here, h)
    First-if false not_here = First-right name (path ∷ []) ps r (not_here, tt) f

join-length : (p q : Text) → 0 < length p → 0 < length (join p q)
unfolding join
join-length p [] h = elim (Bool-cases (needs_slash p)) [
  | inl slash ↦ rw slash (omega (arith, length-append p (47 ∷ [])))
  | inr no_slash ↦ rw no_slash (omega (arith, length-append p []))
]
join-length p (c ∷ cs) h = ground (arith, length-append p (47 ∷ c ∷ cs), length-append p (c ∷ cs))

mutual
  unfolding recursive_search

  search-First :
      (name path : Text) (node : Node)
      → 0 < length path
      → First name (directories path node) (recursive_search name path node)
  search-First name path file h = inr (refl, tt)
  search-First name path (directory es) h =
      First-cons name path (inner_directories path es) (search_entries name path es) h
        (entries-First name path es h)

  entries-First :
      (name path : Text) (es : Entries)
      → 0 < length path
      → First name (inner_directories path es) (search_entries name path es)
  entries-First name path no_entries h = inr (refl, tt)
  entries-First name path (named n file es) h = entries-First name path es h
  entries-First name path (named n (directory fs) es) h =
      First-append name (directories (join path n) (directory fs)) (inner_directories path es)
        (recursive_search name (join path n) (directory fs)) (search_entries name path es)
        (search-First name (join path n) (directory fs) (join-length path n h))
        (entries-First name path es h)

-- The search for a group returns the first directory, in the order in which the tree is walked, whose path
-- contains the name, and the empty path if there is none, when it starts at a path that is not empty.
pub recursive_search-First :
    (name path : Text) (node : Node)
    → 0 < length path
    → First name (directories path node) (recursive_search name path node)
recursive_search-First = search-First

slice-length : (v2 : Bool) → 0 < length (slice v2)
slice-length true = omega arith
slice-length false = omega arith

-- A tree in which some directory has the name.
abbrev pub Shows : Text → Text → Node → Type 0
Shows name root tree =
    (before : List Text) × (p : Text) × (after : List Text) × (directories root tree
      ≡ before ++ p ∷ after)
    × (contains name p ≡ true)

Lacks-middle :
    (name : Text) (before : List Text) (p : Text) (after : List Text)
    → Lacks name (before ++ p ∷ after)
    → contains name p ≡ false
Lacks-middle name [] p after (l, ls) = l
Lacks-middle name (q ∷ before) p after (l, ls) = Lacks-middle name before p after ls

search-Shows :
    (name root : Text) (tree : Node)
    → 0 < length root
    → Shows name root tree
    → IsFirst name (directories root tree) (recursive_search name root tree)
search-Shows name root tree h (before, p, after, e, c) = elim (search-First name root tree h) [
  | inl first ↦ first
  | inr (gone, l) ↦
      absurd (
        let no = Lacks-middle name before p after (subst (Lacks name) e l) in ground (arith, c, no))
]

search-Lacks :
    (name root : Text) (tree : Node)
    → 0 < length root
    → Lacks name (directories root tree)
    → recursive_search name root tree ≡ []
search-Lacks name root tree h l = elim (search-First name root tree h) [
  | inl (before, after, e, m, c, p) ↦
      absurd (
        let no = Lacks-middle name before _ after (subst (Lacks name) e l) in ground (arith, c, no))
  | inr (gone, m) ↦ gone
]

wait_group-Shows :
    (name root : Text) (waits : List Node) (tree : Node) (later : List Node)
    → 0 < length root
    → All (λ t. Lacks name (directories root t)) waits
    → Shows name root tree
    → wait_group name root (waits ++ tree ∷ later) ≡ some (recursive_search name root tree)
unfolding wait_group
wait_group-Shows name root [] tree later h l s =
    let (before, after, e, m, c, p) = search-Shows name root tree h s in ground (arith, p)
wait_group-Shows name root (t ∷ waits) tree later h (l, ls) s =
    rw (search-Lacks name root t h l) (wait_group-Shows name root waits tree later h ls s)

-- `enable` waits while no directory below the slice has the machine's name after a v in its path. In the
-- first tree that shows one it takes the first such directory, and the limit of the vCPU becomes that
-- of its own directory there, in the file of the version of the groups.
pub enable-Shows :
    (read_number : Text → ℕ) (v2 : Bool) (vm_name : Text) (vcpu_id : ℕ) (waits : List Node)
    (tree : Node) (later : List Node)
    → All (λ t. Lacks (codes "v" ++ vm_name) (directories (slice v2) t)) waits
    → Shows (codes "v" ++ vm_name) (slice v2) tree
    → (group : Text) × (fs : Files) × IsFirst
        (codes "v" ++ vm_name)
        (directories (slice v2) tree)
        group
      × (enable read_number v2 vm_name vcpu_id (waits ++ tree ∷ later) ≡ some fs)
      × (fs.limit
          ≡ join
              (join group (codes "vcpu" ++ decimal vcpu_id))
              (if v2 then codes "cpu.max" else codes "cpu.cfs_quota_us"))
unfolding enable files_of
enable-Shows read_number v2 vm_name vcpu_id waits tree later l s =
    let name = codes "v" ++ vm_name in
    let group = recursive_search name (slice v2) tree in
    (
      group,
      files_of read_number v2 (join group (codes "vcpu" ++ decimal vcpu_id)),
      search-Shows name (slice v2) tree (slice-length v2) s,
      ap (located read_number v2 vcpu_id)
          (wait_group-Shows name (slice v2) waits tree later (slice-length v2) l s),
      refl,
    )
