-- ===== src/Utils/Toml/Total.antt =====
-- The parser comes to an end: how much fuel its recursion needs.
use cgroup_monitor.Prelude.{
  ℕ, zero, suc, ◌+◌, ◌*◌, ◌^◌, ◌≤◌, ◌<◌, ◌≡◌, ◌≢◌, refl, Bool, true, false, ◌||◌, inl, inr, Text,
  codes, text_eq, arith, length, length-append, [], ◌∷◌, ◌⊎◌,
}
use cgroup_monitor.Floats.{Floats}
use cgroup_monitor.Utils.Tokenizer.{Tokenizer, new_tokenizer, one_of}
use cgroup_monitor.Utils.Tokenizer.Ready.{Ready, pos}
use cgroup_monitor.Utils.Config.{
  dic, Array, items_end, push, Dict, entries_end, insert, ConfigError, clone_value,
}
use cgroup_monitor.Utils.Toml.{
  Numbers, Parsed, done, fails, no_number, no_location, no_fuel, parse_int, parse_float, start_of,
  parse_value, parse_array, parse_dict, parse_sections, parse, marks, blanks, comments,
}
use cgroup_monitor.Utils.Toml.Ends.{
  Ends, ends, Ends-pass, Ends-weaken, Ends-if, Ends-by_start, Opens, Opens-start_of, mark_bytes, At,
  token-Ends, back-Ends, assert_msg-Ends, Read-mark, number-Ends, parse_string-Ends,
}
use cgroup_monitor.Utils.Toml.Ordered.{DictOrdered, parse-DictOrdered}

module _ {F : Floats} (N : Numbers F) (n : ℕ) (short : n < 2 ^ 31) where
  abbrev ReadyN : Tokenizer → Type 0
  ReadyN = Ready mark_bytes n

  -- Behind a place, from further on.
  At-after :
      {A : Type 0} {m : Parsed A} (p q : ℕ) → p ≤ q → Ends (At n short q) m → Ends (At n short p) m
  At-after p q le e = Ends-weaken e (λ a t (r, forth). (r, omega (arith, forth)))

  int-Ends : (t : Tokenizer) → ReadyN t → Ends (At n short (pos n t)) (parse_int N t)
  unfolding parse_int
  int-Ends t r = Ends-pass (token-Ends n short t r) (λ x t1 read.
      Ends-pass (number-Ends n short (pos n t) (N.stoi x) t1 read.ready read.forth)
        (λ _ t2 at. ends at))

  float-Ends : (t : Tokenizer) → ReadyN t → Ends (At n short (pos n t)) (parse_float N t)
  unfolding parse_float
  float-Ends t r = Ends-pass (token-Ends n short t r) (λ x t1 read.
      Ends-pass (number-Ends n short (pos n t) (N.stof x) t1 read.ready read.forth)
        (λ _ t2 at. ends at))

  mutual
    unfolding parse_value

    value-Ends :
        (fuel : ℕ) (t : Tokenizer)
        → ReadyN t
        → 2 * n + 1 ≤ fuel + 2 * pos n t
        → Ends (At n short (pos n t)) (parse_value N fuel t)
    value-Ends zero t r h = absurd (omega arith)
    value-Ends (suc fuel) t r h = Ends-pass (token-Ends n short t r) (λ x t1 read.
        let opened =
          λ (o : Opens (start_of x)). read.farther (Opens-start_of x o).0 (Opens-start_of x o).1 in
        Ends-by_start (start_of x) _ _ _ _ _ _ _ t1
          (λ o.
            Ends-pass
              (At-after (pos n t) (pos n t1) read.forth
                (dict-Ends fuel false entries_end t1 read.ready (omega (arith, opened o, h))))
              (λ d t2 at. ends at))
          (λ o.
            Ends-pass
              (At-after (pos n t) (pos n t1) read.forth
                (array-Ends fuel items_end t1 read.ready (omega (arith, opened o, h))))
              (λ a t2 at. ends at))
          (ends (read.ready, read.forth)) (ends (read.ready, read.forth))
          (Ends-pass (back-Ends n short t x t1 read)
            (λ _ t2 (r2, forth). At-after (pos n t) (pos n t2) forth (float-Ends t2 r2)))
          (Ends-pass (back-Ends n short t x t1 read)
            (λ _ t2 (r2, forth). At-after (pos n t) (pos n t2) forth (int-Ends t2 r2)))
          (λ mark o.
            Ends-pass
              (At-after (pos n t) (pos n t1) read.forth
                (parse_string-Ends n short fuel mark t1 read.ready (omega (arith, opened o, h))))
              (λ s t2 at. ends at)))

    array-Ends :
        (fuel : ℕ) (a : Array F) (t : Tokenizer)
        → ReadyN t
        → 2 * n + 2 ≤ fuel + 2 * pos n t
        → Ends (At n short (pos n t)) (parse_array N fuel a t)
    array-Ends zero a t r h = absurd (omega arith)
    array-Ends (suc fuel) a t r h = Ends-pass (token-Ends n short t r) (λ x t1 read.
        Ends-if (text_eq x (codes "]")) _ _ t1 (λ _. ends (read.ready, read.forth))
          (λ _. Ends-pass (back-Ends n short t x t1 read) (λ _ t2 (r2, forth2).
            Ends-pass (value-Ends fuel t2 r2 (omega (arith, h, forth2))) (λ v t3 (r3, forth3).
              Ends-pass (token-Ends n short t3 r3) (λ y t4 read4.
                Ends-pass
                  (assert_msg-Ends n short t3 y (text_eq y (codes ",") || text_eq y (codes "]")) t4
                    read4)
                  (λ _ t5 (read5, sep).
                    Ends-if (text_eq y (codes "]")) _ _ t5
                      (λ _. ends (read5.ready, omega (arith, forth2, forth3, read5.forth)))
                      (λ other.
                        let past =
                          Read-mark n short t3 y t5 44 read5 (ground (arith, sep, other)) refl in
                        At-after (pos n t) (pos n t5) (omega (arith, forth2, forth3, past)) (
                          array-Ends fuel (push a v) t5 read5.ready
                            (omega (arith, h, forth2, forth3, past))))))))))

    dict-Ends :
        (fuel : ℕ) (glob : Bool) (d : Dict F) (t : Tokenizer)
        → ReadyN t
        → 2 * n + 2 ≤ fuel + 2 * pos n t
        → Ends (At n short (pos n t)) (parse_dict N fuel glob d t)
    dict-Ends zero glob d t r h = absurd (omega arith)
    dict-Ends (suc fuel) glob d t r h = Ends-pass (token-Ends n short t r) (λ name t1 read.
        Ends-if (text_eq name [] || text_eq name (codes "[")) _ _ t1
          (λ _. Ends-pass (back-Ends n short t name t1 read) (λ _ t2 at. ends at))
          (λ _. Ends-pass (token-Ends n short t1 read.ready) (λ eq t2 read2.
            Ends-pass (assert_msg-Ends n short t1 eq (text_eq eq (codes "=")) t2 read2)
              (λ _ t3 (read3, sep).
                let past = Read-mark n short t1 eq t3 61 read3 sep refl in
                Ends-pass (value-Ends fuel t3 read3.ready (omega (arith, h, read.forth, past)))
                  (λ v t4 (r4, forth4).
                    let behind : pos n t < pos n t4 = omega (arith, read.forth, past, forth4) in
                    Ends-if glob _ _ t4
                      (λ _.
                        At-after (pos n t) (pos n t4) (omega (arith, behind))
                          (dict-Ends fuel glob (insert name v d) t4 r4 (omega (arith, behind, h))))
                      (λ _. Ends-pass (token-Ends n short t4 r4) (λ y t5 read5.
                        Ends-pass
                          (assert_msg-Ends n short t4 y
                            (text_eq y (codes "}") || text_eq y (codes ",")) t5 read5)
                          (λ _ t6 (read6, _).
                            Ends-if (text_eq y (codes "}")) _ _ t6
                              (λ _. ends (read6.ready, omega (arith, behind, read6.forth)))
                              (λ _.
                                At-after (pos n t) (pos n t6) (omega (arith, behind, read6.forth)) (
                                  dict-Ends fuel glob (insert name v d) t6 read6.ready
                                    (omega (arith, behind, read6.forth, h))))))))))))

  sections-Ends :
      (fuel : ℕ) (d : Dict F) (t : Tokenizer)
      → ReadyN t
      → 2 * n + 2 ≤ fuel + 2 * pos n t
      → Ends (At n short (pos n t)) (parse_sections N fuel d t)
  unfolding parse_sections
  sections-Ends zero d t r h = absurd (omega arith)
  sections-Ends (suc fuel) d t r h = Ends-pass (token-Ends n short t r) (λ x t1 read.
      Ends-pass
        (assert_msg-Ends n short t x
          (text_eq x (codes "[") || text_eq x [] || text_eq x (codes "#")) t1 read)
        (λ _ t2 (read2, _).
          Ends-if (text_eq x (codes "[")) _ _ t2
            (λ opened.
              let past = Read-mark n short t x t2 91 read2 opened refl in
              Ends-pass (token-Ends n short t2 read2.ready) (λ name t3 read3.
                Ends-pass (token-Ends n short t3 read3.ready) (λ close t4 read4.
                  Ends-pass (assert_msg-Ends n short t3 close (text_eq close (codes "]")) t4 read4)
                    (λ _ t5 (read5, _).
                      let behind : pos n t < pos n t5 =
                        omega (arith, past, read3.forth, read5.forth) in
                      Ends-pass
                        (dict-Ends fuel true entries_end t5 read5.ready (omega (arith, behind, h)))
                        (λ content t6 (r6, forth6).
                          At-after (pos n t) (pos n t6) (omega (arith, behind, forth6)) (
                            sections-Ends fuel (insert name (dic content) d) t6 r6
                              (omega (arith, behind, forth6, h))))))))
            (λ _. ends (read2.ready, read2.forth))))

module _ {F : Floats} (N : Numbers F) where
  new_tokenizer-Ready :
      (content : Text)
      → Ready mark_bytes (length content + 1) (new_tokenizer content marks blanks comments)
  unfolding new_tokenizer one_of text_eq
  new_tokenizer-Ready content = record {
    size = length-append content (10 ∷ []);
    line_end = (content, refl);
    separators = refl;
    marks_comments = refl;
    within = omega arith;
    at_end = inl (omega arith);
  }

  -- How `parse` ends: with a dict in order, with the error of a line, or by an exception.
  abbrev pub Outcome : Parsed (Dict F) → Type 0
  Outcome r =
      ((d : Dict F) × (t : Tokenizer) × (r ≡ done d t)
        × DictOrdered d
        × (clone_value (dic d) ≡ dic d))
      ⊎ (((e : ConfigError) × (r ≡ fails e)) ⊎ (r ≡ no_number))

  Outcome-of :
      {P : Dict F → Tokenizer → Type 0} (fuel : ℕ) (content : Text) (r : Parsed (Dict F))
      → parse N fuel content ≡ r
      → Ends P r
      → Outcome r
  Outcome-of fuel content (done d t) e h =
      let (o, same) = parse-DictOrdered N fuel content d t e in inl (d, t, refl, o, same)
  Outcome-of fuel content (fails x) e h = inr (inl (x, refl))
  Outcome-of fuel content no_number e h = inr (inr refl)
  Outcome-of fuel content no_location e h = elim h [ ]
  Outcome-of fuel content no_fuel e h = elim h [ ]

  -- The parser comes to an end on every content below 2 ^ 31 - 1 bytes, with fuel of twice its length
  -- and 4 more: with a dict that has the keys of each of its dicts in order, each key once, and equals
  -- its deep copy, or with the error of a line, or with an exception of `std::stoi` or `std::stof`. No
  -- `rewind` finds its stack empty.
  pub parse-Outcome :
      (fuel : ℕ) (content : Text)
      → length content + 1 < 2 ^ 31
      → 2 * length content + 4 ≤ fuel
      → Outcome (parse N fuel content)
  unfolding parse new_tokenizer
  parse-Outcome fuel content short h =
      let t = new_tokenizer content marks blanks comments in
      Outcome-of fuel content (parse N fuel content) refl (
        sections-Ends N (length content + 1) short fuel entries_end t (new_tokenizer-Ready content)
          (omega arith))

  pub Outcome-located : (r : Parsed (Dict F)) → Outcome r → (r ≢ no_location) × (r ≢ no_fuel)
  Outcome-located r (inl (d, t, e, ordered, same)) = (λ e'. absurd (cc), λ e'. absurd (cc))
  Outcome-located r (inr (inl (x, e))) = (λ e'. absurd (cc), λ e'. absurd (cc))
  Outcome-located r (inr (inr e)) = (λ e'. absurd (cc), λ e'. absurd (cc))
