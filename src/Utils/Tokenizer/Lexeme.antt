-- ===== src/Utils/Tokenizer/Lexeme.antt =====
-- One call of `nextPure`: what it cuts off and how far it moves.
use cgroup_monitor.Prelude.{
  ℕ, zero, suc, ◌+◌, ◌^◌, ◌≤◌, ◌<◌, ◌≡◌, refl, ap, sym, ◌∙◌, ◌⊎◌, inl, inr, true, some, List, [],
  ◌∷◌, ◌++◌, Text, arith, ◌==◌, length, take, drop, min, All, take-append-drop, length-drop,
  Bool-cases, Option-cases,
}
use cgroup_monitor.Utils.Tokenizer.{
  Tokenizer, is_prefix, find, offset, scan, cut, next_pure, rest_of, width, advance,
}

-- The cursor stands in the content, whose length fits an `int`.
pub record IsValid (t : Tokenizer) : Type 0 where
  pub within : t.cursor ≤ length t.content
  pub short : length t.content < 2 ^ 31

prefix-length : (p cs : Text) → is_prefix p cs ≡ true → length p ≤ length cs
unfolding is_prefix
prefix-length [] cs e = omega arith
prefix-length (x ∷ p) [] e = cc
prefix-length (x ∷ p) (y ∷ cs) e = ground (arith, prefix-length p cs)

-- A find stays within the text.
find-le : (p cs : Text) (i : ℕ) → find p cs ≡ some i → i + length p ≤ length cs
unfolding find
find-le p [] i e = ground (arith, prefix-length p [])
find-le p (c ∷ cs) i e = elim (Bool-cases (is_prefix p (c ∷ cs))) [
  | inl here ↦ ground (arith, here, prefix-length p (c ∷ cs))
  | inr not_here ↦ elim (Option-cases (find p cs)) [
    | inl gone ↦ absurd (ground (arith, gone, not_here))
    | inr (j, ej) ↦ ground (arith, ej, not_here, find-le p cs j)
  ]
]

drop-nil : (n : ℕ) → drop {A = ℕ} n [] ≡ []
drop-nil zero = refl
drop-nil (suc n) = refl

pub drop-drop : (m n : ℕ) (xs : Text) → drop m (drop n xs) ≡ drop (n + m) xs
drop-drop m zero xs = ap (λ (k : ℕ). drop k xs) {y = 0 + m} (omega arith)
drop-drop m (suc n) [] = drop-nil m ∙ sym (drop-nil (suc n + m))
drop-drop m (suc n) (x ∷ xs) =
    drop-drop m n xs ∙ ap (λ (k : ℕ). drop k (x ∷ xs)) {x = suc (n + m)} (omega arith)

pub length-take : (n : ℕ) (xs : Text) → n ≤ length xs → length (take n xs) ≡ n
length-take zero xs h = refl
length-take (suc n) [] h = absurd (omega arith)
length-take (suc n) (x ∷ xs) h = ap suc (length-take n xs (omega arith))

-- A token that is not found has an offset beyond the rest, one that is found lies within it.
offset-cases :
    (it rest : Text) (cursor : ℕ)
    → cursor + length rest < 2 ^ 31
    → (length rest < offset (find it rest) cursor)
      ⊎ (offset (find it rest) cursor + length it ≤ length rest)
offset-cases it rest cursor short = elim (Option-cases (find it rest)) [
  | inl gone ↦ rw gone (inl (omega arith))
  | inr (i, e) ↦ rw e (inr (find-le it rest i e))
]

scan-le :
    (rest : Text) (cursor : ℕ) (its : List Text) (best beg : ℕ)
    → cursor + length rest < 2 ^ 31
    → beg + best ≤ length rest
    → (scan rest cursor its best beg).1 + (scan rest cursor its best beg).0 ≤ length rest
unfolding scan
scan-le rest cursor [] best beg short h = h
scan-le rest cursor (it ∷ its) best beg short h =
    scan-le rest cursor its _ _ short (ground (arith, offset-cases it rest cursor short))

cut-le : (n best beg : ℕ) → beg + best ≤ n → cut n (best, beg) ≤ n
cut-le n best beg h = ground arith

pub width-le : (t : Tokenizer) → IsValid t → width t ≤ length (rest_of t)
unfolding width
width-le t v =
    let n = length (rest_of t) in
    let (best, beg) = scan (rest_of t) t.cursor t.tokens 0 n in
    cut-le n best beg (
      scan-le (rest_of t) t.cursor t.tokens 0 n
        (omega (arith, length-drop t.cursor t.content, v.within, v.short)) (omega arith))

-- The lexeme is what stands between the old cursor and the new one.
abbrev pub Splits : Tokenizer → Text × Tokenizer → Type 0
Splits t (x, t') = (rest_of t ≡ x ++ rest_of t') × (t'.cursor ≡ t.cursor + length x) × IsValid t'

advance-Splits :
    (n : ℕ) (t : Tokenizer) → IsValid t → n ≤ length (rest_of t) → Splits t (advance n t)
unfolding advance
advance-Splits n t v h =
    let short : min n (length (rest_of t)) ≡ n = omega arith in
    rw short (
      sym (take-append-drop n (rest_of t))
          ∙ ap (◌++◌ (take n (rest_of t))) (drop-drop n t.cursor t.content),
      ap (◌+◌ t.cursor) (sym (length-take n (rest_of t) h)),
      record { within = omega (arith, length-drop t.cursor t.content, v.within); short = v.short },
    )

-- `nextPure` loses nothing: the lexeme that it returns is what stands between the old cursor and the
-- new one, and the new cursor stands in the content.
pub next_pure-Splits : (t : Tokenizer) → IsValid t → Splits t (next_pure t)
unfolding next_pure
next_pure-Splits t v = elim (Bool-cases (t.cursor == length t.content)) [
  | inl done ↦ rw done (refl, omega arith, v)
  | inr more ↦ rw more (advance-Splits (width t) t v (width-le t v))
]

abbrev pub AreTokens : List Text → Type 0
AreTokens = All (λ it. 0 < length it)

scan_pos :
    (rest : Text) (cursor : ℕ) (its : List Text) (best beg : ℕ)
    → AreTokens its
    → 0 < beg + best
    → 0 < (scan rest cursor its best beg).1 + (scan rest cursor its best beg).0
unfolding scan
scan_pos rest cursor [] best beg ts h = h
scan_pos rest cursor (it ∷ its) best beg (nonempty, ts) h =
    scan_pos rest cursor its _ _ ts (ground arith)

cut_pos : (n best beg : ℕ) → 0 < n → 0 < beg + best → 0 < cut n (best, beg)
cut_pos n best beg h k = ground arith

width_pos :
    (t : Tokenizer) → IsValid t → AreTokens t.tokens → t.cursor < length t.content → 0 < width t
unfolding width
width_pos t v ts h =
    let n = length (rest_of t) in
    let more : 0 < n = omega (arith, length-drop t.cursor t.content) in
    cut_pos n (scan (rest_of t) t.cursor t.tokens 0 n).0 (scan (rest_of t) t.cursor t.tokens 0 n).1
      more (scan_pos (rest_of t) t.cursor t.tokens 0 n ts (omega arith))

-- Before the end of the content, if no token is empty, `nextPure` moves the cursor forward.
pub next_pure-progress :
    (t : Tokenizer)
    → IsValid t
    → AreTokens t.tokens
    → t.cursor < length t.content
    → t.cursor < (next_pure t).1.cursor
unfolding next_pure advance
next_pure-progress t v ts h = ground (arith, width_pos t v ts h)
