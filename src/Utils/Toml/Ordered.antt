-- ===== src/Utils/Toml/Ordered.antt =====
-- What the parser returns has its dicts in order, so that it equals its copies.
use cgroup_monitor.Prelude.{
  ℕ, zero, suc, ◌≡◌, subst, Bool, true, false, ◌||◌, if◌then◌else◌, inl, inr, Text, codes, text_eq,
  text_less, [], Bool-cases,
}
use cgroup_monitor.Floats.{Floats}
use cgroup_monitor.Utils.Tokenizer.{Tokenizer}
use cgroup_monitor.Utils.Config.{
  Value, dic, Array, items_end, item, push, Dict, entries_end, entry, insert, clone_value,
}
use cgroup_monitor.Utils.Config.Lookup.{IsSorted, insert-IsSorted}
use cgroup_monitor.Utils.Config.Clone.{IsOrdered, AllOrdered, EntriesOrdered, clone_value_lem}
use cgroup_monitor.Utils.Toml.{
  Numbers, Parsed, done, fails, no_number, no_location, no_fuel, Parser, pass, token, back,
  assert_msg, number, parse_int, parse_float, parse_string, Start, brace, bracket, truth, falsehood,
  fraction, whole, quote, start_of, by_start, parse_value, parse_array, parse_dict, parse_sections,
  parse,
}

-- If a result is there, the property holds of it.
Ensures : {A : Type 0} → (A → Type 0) → Parsed A → Type 0
Ensures P (done a t) = P a
Ensures P (fails e) = Unit
Ensures P no_number = Unit
Ensures P no_location = Unit
Ensures P no_fuel = Unit

Ensures-pass :
    {A B : Type 0} (P : A → Type 0) (Q : B → Type 0) (m : Parsed A) (f : A → Parser B)
    → Ensures P m
    → ((a : A) (t : Tokenizer) → P a → Ensures Q (f a t))
    → Ensures Q (pass m f)
unfolding Ensures
Ensures-pass P Q (done a t) f h k = k a t h
Ensures-pass P Q (fails e) f h k = tt
Ensures-pass P Q no_number f h k = tt
Ensures-pass P Q no_location f h k = tt
Ensures-pass P Q no_fuel f h k = tt

Ensures-then :
    {A B : Type 0} (Q : B → Type 0) (m : Parsed A) (f : A → Parser B)
    → ((a : A) (t : Tokenizer) → Ensures Q (f a t))
    → Ensures Q (pass m f)
unfolding Ensures
Ensures-then Q (done a t) f k = k a t
Ensures-then Q (fails e) f k = tt
Ensures-then Q no_number f k = tt
Ensures-then Q no_location f k = tt
Ensures-then Q no_fuel f k = tt

Ensures-if :
    {A : Type 0} (Q : A → Type 0) (b : Bool) (p q : Parser A) (t : Tokenizer)
    → Ensures Q (p t)
    → Ensures Q (q t)
    → Ensures Q ((if b then p else q) t)
Ensures-if Q true p q t h k = h
Ensures-if Q false p q t h k = k

module _ {F : Floats} where
  -- A dict in order, all the way down.
  abbrev pub DictOrdered : Dict F → Type 0
  DictOrdered d = IsSorted d × EntriesOrdered d

  push-AllOrdered : (a : Array F) (v : Value F) → AllOrdered a → IsOrdered v → AllOrdered (push a v)
  unfolding push
  push-AllOrdered items_end v o h = (h, tt)
  push-AllOrdered (item w a) v (g, o) h = (g, push-AllOrdered a v o h)

  insert-EntriesOrdered :
      (k : Text) (v : Value F) (d : Dict F)
      → IsOrdered v
      → EntriesOrdered d
      → EntriesOrdered (insert k v d)
  unfolding insert
  insert-EntriesOrdered k v entries_end h o = (h, tt)
  insert-EntriesOrdered k v (entry j w d) h (g, o) = elim (Bool-cases (text_eq k j)) [
    | inl same ↦ rw same (h, o)
    | inr other ↦ elim (Bool-cases (text_less k j)) [
      | inl before ↦ rw (other, before) (h, (g, o))
      | inr behind ↦ rw (other, behind) (g, insert-EntriesOrdered k v d h o)
    ]
  ]

  insert-DictOrdered :
      (k : Text) (v : Value F) (d : Dict F)
      → IsOrdered v
      → DictOrdered d
      → DictOrdered (insert k v d)
  insert-DictOrdered k v d h (s, o) = (insert-IsSorted k v d s, insert-EntriesOrdered k v d h o)

Ensures-by_start :
    {A : Type 0} (Q : A → Type 0) (s : Start) (d a y n f i : Parser A) (q : Text → Parser A)
    (t : Tokenizer)
    → Ensures Q (d t)
    → Ensures Q (a t)
    → Ensures Q (y t)
    → Ensures Q (n t)
    → Ensures Q (f t)
    → Ensures Q (i t)
    → ((mark : Text) → Ensures Q (q mark t))
    → Ensures Q (by_start s d a y n f i q t)
Ensures-by_start Q brace d a y n f i q t hd ha hy hn hf hi hq = hd
Ensures-by_start Q bracket d a y n f i q t hd ha hy hn hf hi hq = ha
Ensures-by_start Q truth d a y n f i q t hd ha hy hn hf hi hq = hy
Ensures-by_start Q falsehood d a y n f i q t hd ha hy hn hf hi hq = hn
Ensures-by_start Q fraction d a y n f i q t hd ha hy hn hf hi hq = hf
Ensures-by_start Q whole d a y n f i q t hd ha hy hn hf hi hq = hi
Ensures-by_start Q (quote mark) d a y n f i q t hd ha hy hn hf hi hq = hq mark

module _ {F : Floats} (N : Numbers F) where
  float-IsOrdered : (t : Tokenizer) → Ensures IsOrdered (parse_float N t)
  unfolding parse_float Ensures
  float-IsOrdered t =
      Ensures-then IsOrdered (token t) _
        (λ x t1. Ensures-then IsOrdered (number (N.stof x) t1) _ (λ y t2. tt))

  int-IsOrdered : (t : Tokenizer) → Ensures IsOrdered (parse_int N t)
  unfolding parse_int Ensures
  int-IsOrdered t =
      Ensures-then IsOrdered (token t) _
        (λ x t1. Ensures-then IsOrdered (number (N.stoi x) t1) _ (λ y t2. tt))

  mutual
    unfolding parse_value Ensures

    value-IsOrdered : (fuel : ℕ) (t : Tokenizer) → Ensures IsOrdered (parse_value N fuel t)
    value-IsOrdered zero t = tt
    value-IsOrdered (suc fuel) t = Ensures-then IsOrdered (token t) _ (λ begin t1.
        Ensures-by_start IsOrdered (start_of begin) _ _ _ _ _ _ _ t1
          (Ensures-pass DictOrdered IsOrdered (parse_dict N fuel false entries_end t1) _
            (dict-DictOrdered fuel false entries_end t1 (tt, tt)) (λ d t2 h. h))
          (Ensures-pass AllOrdered IsOrdered (parse_array N fuel items_end t1) _
            (array-AllOrdered fuel items_end t1 tt) (λ a t2 h. h))
          tt tt (Ensures-then IsOrdered (back t1) _ (λ _ t2. float-IsOrdered t2))
          (Ensures-then IsOrdered (back t1) _ (λ _ t2. int-IsOrdered t2))
          (λ mark. Ensures-then IsOrdered (parse_string fuel mark t1) _ (λ s t2. tt)))

    array-AllOrdered :
        (fuel : ℕ) (a : Array F) (t : Tokenizer)
        → AllOrdered a
        → Ensures AllOrdered (parse_array N fuel a t)
    array-AllOrdered zero a t o = tt
    array-AllOrdered (suc fuel) a t o = Ensures-then AllOrdered (token t) _ (λ x t1.
        Ensures-if AllOrdered (text_eq x (codes "]")) _ _ t1 o (
          Ensures-then AllOrdered (back t1) _ (λ _ t2.
            Ensures-pass IsOrdered AllOrdered (parse_value N fuel t2) _ (value-IsOrdered fuel t2)
              (λ v t3 h. Ensures-then AllOrdered (token t3) _ (λ y t4.
                Ensures-then AllOrdered
                  (assert_msg (text_eq y (codes ",") || text_eq y (codes "]")) t4) _
                  (λ _ t5.
                    Ensures-if AllOrdered (text_eq y (codes "]")) _ _ t5 (push-AllOrdered a v o h)
                      (array-AllOrdered fuel (push a v) t5 (push-AllOrdered a v o h))))))))

    dict-DictOrdered :
        (fuel : ℕ) (glob : Bool) (d : Dict F) (t : Tokenizer)
        → DictOrdered d
        → Ensures DictOrdered (parse_dict N fuel glob d t)
    dict-DictOrdered zero glob d t o = tt
    dict-DictOrdered (suc fuel) glob d t o = Ensures-then DictOrdered (token t) _ (λ name t1.
        Ensures-if DictOrdered (text_eq name [] || text_eq name (codes "[")) _ _ t1
          (Ensures-then DictOrdered (back t1) _ (λ _ t2. o))
          (Ensures-then DictOrdered (token t1) _ (λ eq t2.
            Ensures-then DictOrdered (assert_msg (text_eq eq (codes "=")) t2) _ (λ _ t3.
              Ensures-pass IsOrdered DictOrdered (parse_value N fuel t3) _ (value-IsOrdered fuel t3)
                (λ v t4 h.
                  let o' = insert-DictOrdered name v d h o in
                  Ensures-if DictOrdered glob _ _ t4
                    (dict-DictOrdered fuel glob (insert name v d) t4 o')
                    (Ensures-then DictOrdered (token t4) _ (λ y t5.
                      Ensures-then DictOrdered
                        (assert_msg (text_eq y (codes "}") || text_eq y (codes ",")) t5) _
                        (λ _ t6.
                          Ensures-if DictOrdered (text_eq y (codes "}")) _ _ t6 o'
                            (dict-DictOrdered fuel glob (insert name v d) t6 o')))))))))

  sections-DictOrdered :
      (fuel : ℕ) (d : Dict F) (t : Tokenizer)
      → DictOrdered d
      → Ensures DictOrdered (parse_sections N fuel d t)
  unfolding parse_sections Ensures
  sections-DictOrdered zero d t o = tt
  sections-DictOrdered (suc fuel) d t o = Ensures-then DictOrdered (token t) _ (λ x t1.
      Ensures-then DictOrdered
        (assert_msg (text_eq x (codes "[") || text_eq x [] || text_eq x (codes "#")) t1) _
        (λ _ t2.
          Ensures-if DictOrdered (text_eq x (codes "[")) _ _ t2
            (Ensures-then DictOrdered (token t2) _ (λ name t3.
              Ensures-then DictOrdered (token t3) _ (λ close t4.
                Ensures-then DictOrdered (assert_msg (text_eq close (codes "]")) t4) _ (λ _ t5.
                  Ensures-pass DictOrdered DictOrdered (parse_dict N fuel true entries_end t5) _
                    (dict-DictOrdered fuel true entries_end t5 (tt, tt))
                    (λ content t6 h.
                      sections-DictOrdered fuel (insert name (dic content) d) t6
                        (insert-DictOrdered name (dic content) d h o))))))
            o))

  -- A configuration that the parser returns has the keys of each of its dicts in order, each key
  -- once, and equals its deep copy.
  pub parse-DictOrdered :
      (fuel : ℕ) (content : Text) (d : Dict F) (t : Tokenizer)
      → parse N fuel content ≡ done d t
      → DictOrdered d × (clone_value (dic d) ≡ dic d)
  unfolding parse Ensures
  parse-DictOrdered fuel content d t e =
      let o = subst (Ensures DictOrdered) e (sections-DictOrdered fuel entries_end _ (tt, tt)) in
      (o, clone_value_lem (dic d) o)
