-- ===== src/Utils/Dump/Balance.antt =====
-- The brackets of what the writers of JSON and TOML make.
use cgroup_monitor.Prelude.{
  List, ◌+◌, ℕ, suc, ◌≡◌, refl, ap, sym, ◌∙◌, Bool, true, false, ◌||◌, Option, none, some, [], ◌∷◌,
  ◌++◌, Text, codes, All, All-weaken, ◌==◌, if◌then◌else◌, arith,
}
use mathlib.Core.List.{append_assoc, append-nil}
use cgroup_monitor.Prelude.Words.{ℤ, pos, negsuc}
use cgroup_monitor.Floats.{Floats}
use cgroup_monitor.Utils.Config.{
  Value, long, float, str, bool, arr, dic, Array, items_end, item, Dict, entries_end, entry, to_int,
}
use cgroup_monitor.Utils.Decimal.{decimal}
use cgroup_monitor.Utils.Decimal.Value.{decimal-AreDigits}
use cgroup_monitor.Utils.Dump.{show_int, quoted, comma}
use cgroup_monitor.Utils.Dump.Json.{dump_value, dump_items, dump_entries, dump_entry}

abbrev opens : ℕ → Bool
opens c = (c == 91) || (c == 123)

abbrev closes : ℕ → Bool
closes c = (c == 93) || (c == 125)

abbrev matched : ℕ → List ℕ → (List ℕ → Option (List ℕ)) → Option (List ℕ)
matched c [] f = none
matched c (o ∷ os) f = if o == c then f os else none

-- What closes a bracket or a brace stands two places behind it in the code of the characters.
abbrev closer : ℕ → ℕ
closer c = c + 2

-- What is still to be closed behind a text, the innermost first, if `still` was before it; `none` if the text
-- closes something else than the innermost.
unfoldable pub nesting : Text → List ℕ → Option (List ℕ)
nesting [] still = some still
nesting (c ∷ cs) still =
    let deeper = nesting cs (closer c ∷ still) in
    let same = nesting cs still in
    if opens c then deeper else (if closes c then matched c still (nesting cs) else same)

-- A text that closes what it opens.
IsBalanced : Text → Type 0
IsBalanced x = (rest : Text) (n : List ℕ) → nesting (x ++ rest) n ≡ nesting rest n

abbrev pub IsPlain : Text → Type 0
IsPlain = All (λ c. (opens c || closes c) ≡ false)

plain-IsBalanced : (x : Text) → IsPlain x → IsBalanced x
unfolding IsBalanced nesting
plain-IsBalanced [] p rest n = refl
plain-IsBalanced (c ∷ x) (free, p) rest n = ground (arith, free, plain-IsBalanced x p rest n)

append-IsBalanced : (x y : Text) → IsBalanced x → IsBalanced y → IsBalanced (x ++ y)
unfolding IsBalanced
append-IsBalanced x y p q rest n =
    ap (λ (t : Text). nesting t n) (append_assoc x y rest) ∙ p (y ++ rest) n ∙ q rest n

bracket-IsBalanced : (x : Text) → IsBalanced x → IsBalanced (91 ∷ (x ++ 93 ∷ []))
unfolding IsBalanced nesting
bracket-IsBalanced x p rest n =
    ap (λ (t : Text). nesting t (93 ∷ n)) (append_assoc x (93 ∷ []) rest) ∙ p (93 ∷ rest) (93 ∷ n)

brace-IsBalanced : (x : Text) → IsBalanced x → IsBalanced (123 ∷ (x ++ 125 ∷ []))
unfolding IsBalanced nesting
brace-IsBalanced x p rest n =
    ap (λ (t : Text). nesting t (125 ∷ n)) (append_assoc x (125 ∷ []) rest)
    ∙ p (125 ∷ rest) (125 ∷ n)

quoted-IsPlain : (s : Text) → IsPlain s → IsPlain (quoted s)
quoted-IsPlain s p = (refl, append-IsPlain s (34 ∷ []) p (refl, tt))
  where
    append-IsPlain : (x y : Text) → IsPlain x → IsPlain y → IsPlain (x ++ y)
    append-IsPlain [] y p q = q
    append-IsPlain (c ∷ x) y (f, p) q = (f, append-IsPlain x y p q)

show_int-IsPlain : (n : ℤ) → IsPlain (show_int n)
unfolding show_int
show_int-IsPlain (pos n) = All-weaken _ _ (λ c d. ground arith) (decimal n) (decimal-AreDigits n)
show_int-IsPlain (negsuc n) =
    (refl, All-weaken _ _ (λ c d. ground arith) (decimal (suc n)) (decimal-AreDigits (suc n)))

comma-IsPlain : (first : Bool) → IsPlain (comma first)
comma-IsPlain true = tt
comma-IsPlain false = (refl, (refl, tt))

-- A key, the colon and what follows.
keyed-IsBalanced :
    (k x : Text) → IsPlain k → IsBalanced x → IsBalanced (quoted k ++ (codes " : " ++ x))
keyed-IsBalanced k x p q =
    append-IsBalanced (quoted k) (codes " : " ++ x)
      (plain-IsBalanced (quoted k) (quoted-IsPlain k p))
      (append-IsBalanced (codes " : ") x (plain-IsBalanced (codes " : ") (refl, (refl, (refl, tt))))
        q)

module _ {F : Floats} where
  -- No text and no key in a value has a bracket or a brace.
  abbrev mutual
    pub IsClear : Value F → Type 0
    IsClear (long n) = Unit
    IsClear (float x) = Unit
    IsClear (str s) = IsPlain s
    IsClear (bool b) = Unit
    IsClear (arr a) = AreClear a
    IsClear (dic d) = EntriesClear d

    pub AreClear : Array F → Type 0
    AreClear items_end = Unit
    AreClear (item v a) = IsClear v × AreClear a

    pub EntriesClear : Dict F → Type 0
    EntriesClear entries_end = Unit
    EntriesClear (entry k v d) = IsPlain k × IsClear v × EntriesClear d

  module _ (show_float : F.Float → Text) (floats : (x : F.Float) → IsPlain (show_float x)) where
    mutual
      unfolding dump_value

      value-IsBalanced : (v : Value F) → IsClear v → IsBalanced (dump_value show_float v)
      value-IsBalanced (long n) c =
          plain-IsBalanced (show_int (to_int n)) (show_int-IsPlain (to_int n))
      value-IsBalanced (float x) c = plain-IsBalanced (show_float x) (floats x)
      value-IsBalanced (str s) c = plain-IsBalanced (quoted s) (quoted-IsPlain s c)
      value-IsBalanced (bool b) c = plain-IsBalanced [] tt
      value-IsBalanced (arr a) c =
          bracket-IsBalanced (dump_items show_float true a) (items-IsBalanced true a c)
      value-IsBalanced (dic d) c =
          brace-IsBalanced (dump_entries show_float true d) (entries-IsBalanced true d c)

      items-IsBalanced :
          (first : Bool) (a : Array F) → AreClear a → IsBalanced (dump_items show_float first a)
      items-IsBalanced first items_end c = plain-IsBalanced [] tt
      items-IsBalanced first (item v a) (cv, ca) =
          append-IsBalanced (comma first) _ (plain-IsBalanced (comma first) (comma-IsPlain first)) (
            append-IsBalanced (dump_value show_float v) _ (value-IsBalanced v cv)
              (items-IsBalanced false a ca))

      entries-IsBalanced :
          (first : Bool) (d : Dict F)
          → EntriesClear d
          → IsBalanced (dump_entries show_float first d)
      entries-IsBalanced first entries_end c = plain-IsBalanced [] tt
      entries-IsBalanced first (entry k v d) (ck, cv, cd) =
          append-IsBalanced (comma first) _ (plain-IsBalanced (comma first) (comma-IsPlain first)) (
            append-IsBalanced (dump_entry show_float k v) _ (entry-IsBalanced k v ck cv)
              (entries-IsBalanced false d cd))

      entry-IsBalanced :
          (k : Text) (v : Value F) → IsPlain k → IsClear v → IsBalanced (dump_entry show_float k v)
      entry-IsBalanced k (bool b) ck c = plain-IsBalanced [] tt
      entry-IsBalanced k (long n) ck c =
          keyed-IsBalanced k (show_int (to_int n)) ck
            (plain-IsBalanced (show_int (to_int n)) (show_int-IsPlain (to_int n)))
      entry-IsBalanced k (float x) ck c =
          keyed-IsBalanced k (show_float x) ck (plain-IsBalanced (show_float x) (floats x))
      entry-IsBalanced k (str s) ck c =
          keyed-IsBalanced k (quoted s) ck (plain-IsBalanced (quoted s) (quoted-IsPlain s c))
      entry-IsBalanced k (arr a) ck c =
          keyed-IsBalanced k (91 ∷ (dump_items show_float true a ++ 93 ∷ [])) ck
            (bracket-IsBalanced (dump_items show_float true a) (items-IsBalanced true a c))
      entry-IsBalanced k (dic d) ck c =
          keyed-IsBalanced k (123 ∷ (dump_entries show_float true d ++ 125 ∷ [])) ck
            (brace-IsBalanced (dump_entries show_float true d) (entries-IsBalanced true d c))

    -- The JSON of a value closes each bracket with a bracket and each brace with a brace, the innermost first,
    -- and nothing is left open, if none stands in its texts and keys and in what the stream writes for a `float`.
    pub nesting-dump_value :
        (v : Value F) → IsClear v → nesting (dump_value show_float v) [] ≡ some []
    unfolding IsBalanced nesting
    nesting-dump_value v c =
        ap (λ (t : Text). nesting t []) (sym (append-nil (dump_value show_float v)))
        ∙ value-IsBalanced v c [] []
