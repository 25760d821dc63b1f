-- ===== src/Utils/Config/Clone.antt =====
-- The deep copy of an array and of a dict.
use cgroup_monitor.Prelude.{
  ◌≡◌, refl, sym, ap, ◌∙◌, true, Text, text_less, text_less_trans, text_less-apart, text_less_asym,
}
use cgroup_monitor.Floats.{Floats}
use cgroup_monitor.Utils.Config.{
  Value, long, float, str, bool, arr, dic, Array, items_end, item, Dict, entries_end, entry, insert,
  clone_value, clone_array, clone_into,
}
use cgroup_monitor.Utils.Config.Lookup.{Above, IsSorted}

-- Every dict in a value is in order.
abbrev mutual
  pub IsOrdered : {F : Floats} → Value F → Type 0
  IsOrdered (long n) = Unit
  IsOrdered (float x) = Unit
  IsOrdered (str s) = Unit
  IsOrdered (bool b) = Unit
  IsOrdered (arr a) = AllOrdered a
  IsOrdered (dic d) = IsSorted d × EntriesOrdered d

  pub AllOrdered : {F : Floats} → Array F → Type 0
  AllOrdered items_end = Unit
  AllOrdered (item v a) = IsOrdered v × AllOrdered a

  pub EntriesOrdered : {F : Floats} → Dict F → Type 0
  EntriesOrdered entries_end = Unit
  EntriesOrdered (entry k v d) = IsOrdered v × EntriesOrdered d

module _ {F : Floats} where
  pub join : Dict F → Dict F → Dict F
  join entries_end e = e
  join (entry k v d) e = entry k v (join d e)

  -- Every key of a dict comes before a text.
  abbrev pub Below : Dict F → Text → Type 0
  Below entries_end k = Unit
  Below (entry j v d) k = (text_less j k ≡ true) × Below d k

  -- What is left to copy comes behind what is copied.
  abbrev pub Follows : Dict F → Dict F → Type 0
  Follows copy entries_end = Unit
  Follows copy (entry k v d) = Below copy k

  pub insert-last :
      (copy : Dict F) (k : Text) (v : Value F)
      → Below copy k
      → insert k v copy ≡ join copy (entry k v entries_end)
  unfolding insert join
  insert-last entries_end k v b = refl
  insert-last (entry j w d) k v (l, b) =
      rw (text_less-apart j k l, text_less_asym j k l) (ap (entry j w) (insert-last d k v b))

  pub join-join :
      (a : Dict F) (k : Text) (v : Value F) (d : Dict F)
      → join (join a (entry k v entries_end)) d ≡ join a (entry k v d)
  unfolding join
  join-join entries_end k v d = refl
  join-join (entry j w a) k v d = ap (entry j w) (join-join a k v d)

  pub join-front : (d : Dict F) → join entries_end d ≡ d
  unfolding join
  join-front d = refl

  pub join-nil : (d : Dict F) → join d entries_end ≡ d
  unfolding join
  join-nil entries_end = refl
  join-nil (entry k v d) = ap (entry k v) (join-nil d)

  Below-join :
      (copy : Dict F) (k : Text) (v : Value F) (j : Text)
      → Below copy k
      → text_less k j ≡ true
      → Below (join copy (entry k v entries_end)) j
  unfolding join
  Below-join entries_end k v j b l = (l, tt)
  Below-join (entry i w d) k v j (m, b) l = (text_less_trans i k j m l, Below-join d k v j b l)

  pub Follows-join :
      (copy : Dict F) (k : Text) (v : Value F) (d : Dict F)
      → Below copy k
      → Above k d
      → Follows (join copy (entry k v entries_end)) d
  Follows-join copy k v entries_end b a = tt
  Follows-join copy k v (entry j w d) b (l, a) = Below-join copy k v j b l

pub Follows-nil : {F : Floats} (d : Dict F) → Follows entries_end d
Follows-nil entries_end = tt
Follows-nil (entry k v d) = tt

mutual
  unfolding clone_value join

  clone_value-eq : {F : Floats} (v : Value F) → IsOrdered v → clone_value v ≡ v
  clone_value-eq (long n) o = refl
  clone_value-eq (float x) o = refl
  clone_value-eq (str s) o = refl
  clone_value-eq (bool b) o = refl
  clone_value-eq (arr a) o = ap arr (clone_array_lem a o)
  clone_value-eq (dic d) (s, o) = ap dic (clone_into_lem d entries_end s o (Follows-nil d))

  clone_array_lem : {F : Floats} (a : Array F) → AllOrdered a → clone_array a ≡ a
  clone_array_lem items_end o = refl
  clone_array_lem (item v a) (o, os) =
      ap (λ (w : Value _). item w (clone_array a)) (clone_value-eq v o)
      ∙ ap (item v) (clone_array_lem a os)

  clone_into_lem :
      {F : Floats} (d copy : Dict F)
      → IsSorted d
      → EntriesOrdered d
      → Follows copy d
      → clone_into d copy ≡ join copy d
  clone_into_lem entries_end copy s o f = sym (join-nil copy)
  clone_into_lem (entry k v d) copy (a, s) (o, os) f =
      ap (clone_into d)
        (ap (λ (w : Value _). insert k w copy) (clone_value-eq v o) ∙ insert-last copy k v f)
      ∙ clone_into_lem d (join copy (entry k v entries_end)) s os (Follows-join copy k v d f a)
      ∙ join-join copy k v d

-- A deep copy of a value equals the value, if every dict in it is in order.
pub clone_value_lem : {F : Floats} (v : Value F) → IsOrdered v → clone_value v ≡ v
clone_value_lem v o = clone_value-eq v o
