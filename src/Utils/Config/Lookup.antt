-- ===== src/Utils/Config/Lookup.antt =====
-- The map of a dict: what `insert` changes, and the order of the keys.
use cgroup_monitor.Prelude.{
  ◌≡◌, true, Text, text_eq, text_less, inl, inr, Bool-cases, text_less_trans, text_less-total,
}
use cgroup_monitor.Floats.{Floats}
use cgroup_monitor.Utils.Config.{Value, Dict, entries_end, entry, insert}

module _ {F : Floats} where
  -- Every key of a dict comes behind a text.
  abbrev pub Above : Text → Dict F → Type 0
  Above k entries_end = Unit
  Above k (entry j v d) = (text_less k j ≡ true) × Above k d

  abbrev pub IsSorted : Dict F → Type 0
  IsSorted entries_end = Unit
  IsSorted (entry k v d) = Above k d × IsSorted d

  Above-insert :
      (i k : Text) (v : Value F) (d : Dict F)
      → text_less i k ≡ true
      → Above i d
      → Above i (insert k v d)
  unfolding insert
  Above-insert i k v entries_end l a = (l, tt)
  Above-insert i k v (entry j w d) l (b, a) = elim (Bool-cases (text_eq k j)) [
    | inl same ↦ rw same (b, a)
    | inr other ↦ elim (Bool-cases (text_less k j)) [
      | inl before ↦ rw (other, before) (l, (b, a))
      | inr behind ↦ rw (other, behind) (b, Above-insert i k v d l a)
    ]
  ]

  pub Above-text_less : (i k : Text) (d : Dict F) → text_less i k ≡ true → Above k d → Above i d
  Above-text_less i k entries_end l a = tt
  Above-text_less i k (entry j w d) l (b, a) =
      (text_less_trans i k j l b, Above-text_less i k d l a)

  -- An insertion keeps the keys in order, each once.
  pub insert-IsSorted : (k : Text) (v : Value F) (d : Dict F) → IsSorted d → IsSorted (insert k v d)
  unfolding insert
  insert-IsSorted k v entries_end s = (tt, tt)
  insert-IsSorted k v (entry j w d) (a, s) = elim (Bool-cases (text_eq k j)) [
    | inl same ↦ rw same (a, s)
    | inr other ↦ elim (Bool-cases (text_less k j)) [
      | inl before ↦ rw (other, before) ((before, Above-text_less k j d before a), (a, s))
      | inr behind ↦
          rw (other, behind)
            (Above-insert j k v d (text_less-total k j behind other) a, insert-IsSorted k v d s)
    ]
  ]
