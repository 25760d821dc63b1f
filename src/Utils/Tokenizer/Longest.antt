-- ===== src/Utils/Tokenizer/Longest.antt =====
-- One call of `nextPure`: which token it prefers.
use cgroup_monitor.Prelude.{
  ℕ, ◌≤◌, ◌<◌, ◌≡◌, ap, inl, inr, true, some, List, [], ◌∷◌, Text, text_eq, text_eq_iff, arith,
  ◌==◌, length, min, length-drop, Bool-cases,
}
use cgroup_monitor.Utils.Tokenizer.{
  Tokenizer, is_prefix, find, offset, scan, consider, cut, next_pure, one_of, rest_of, width,
  advance,
}
use cgroup_monitor.Utils.Tokenizer.Lexeme.{IsValid, width-le, length-take}

-- Once the scan has found a token at the cursor, it keeps the longest one.
consider_at :
    (id len best beg : ℕ)
    → beg ≡ 0
    → ((consider id len best beg).1 ≡ 0) × (best ≤ (consider id len best beg).0)
consider_at id len best beg z = ground arith

consider_zero :
    (len best beg : ℕ) → ((consider 0 len best beg).1 ≡ 0) × (len ≤ (consider 0 len best beg).0)
consider_zero len best beg = ground arith

scan_at :
    (rest : Text) (cursor : ℕ) (its : List Text) (best beg : ℕ)
    → beg ≡ 0
    → ((scan rest cursor its best beg).1 ≡ 0) × (best ≤ (scan rest cursor its best beg).0)
unfolding scan
scan_at rest cursor [] best beg z = (z, omega arith)
scan_at rest cursor (it ∷ its) best beg z =
    let id = offset (find it rest) cursor in
    let (z', up) = consider_at id (length it) best beg z in
    let (best', beg') = consider id (length it) best beg in
    let (z'', up') = scan_at rest cursor its best' beg' z' in (z'', omega arith)

find-prefix : (p cs : Text) → is_prefix p cs ≡ true → find p cs ≡ some 0
unfolding find
find-prefix p [] e = rw e
find-prefix p (c ∷ cs) e = rw e

longer :
    (len best beg id : ℕ)
    → id ≡ 0
    → (len' : ℕ) → len ≡ len'
    → (n : ℕ) → (consider id len best beg).0 ≤ n
    → len' ≤ n
longer len best beg id far len' e n h = ground arith

scan-longest :
    (rest : Text) (cursor : ℕ) (its : List Text) (best beg : ℕ) (it : Text)
    → one_of its it ≡ true
    → is_prefix it rest ≡ true
    → ((scan rest cursor its best beg).1 ≡ 0) × (length it ≤ (scan rest cursor its best beg).0)
unfolding scan one_of
scan-longest rest cursor [] best beg it mem pre = absurd (cc)
scan-longest rest cursor (x ∷ its) best beg it mem pre =
    let id = offset (find x rest) cursor in
    let (best', beg') = consider id (length x) best beg in
    elim (Bool-cases (text_eq x it)) [
      | inl same ↦
          let e : x ≡ it = (text_eq_iff x it).0 same in
          let here : find x rest ≡ some 0 = find-prefix x rest (rw e pre) in
          let far : id ≡ 0 = rw here in
          let (z, up) = consider_zero (length x) best beg in
          let (z', up') = scan_at rest cursor its best' beg' (rw far z) in
          let low : length x ≡ length it = ap length e in
          (z', longer (length x) best beg id far (length it) low _ up')
      | inr other ↦ scan-longest rest cursor its best' beg' it (rw other at mem) pre
    ]

cut-longest : (n best beg k : ℕ) → 0 < n → beg ≡ 0 → k ≤ best → k ≤ cut n (best, beg)
cut-longest n best beg k more z h = ground arith

width-longest :
    (t : Tokenizer) (it : Text)
    → t.cursor < length t.content
    → one_of t.tokens it ≡ true
    → is_prefix it (rest_of t) ≡ true
    → length it ≤ width t
unfolding width
width-longest t it more mem pre =
    let n = length (rest_of t) in
    let (here, long) = scan-longest (rest_of t) t.cursor t.tokens 0 n it mem pre in
    cut-longest n (scan (rest_of t) t.cursor t.tokens 0 n).0
      (scan (rest_of t) t.cursor t.tokens 0 n).1 (length it)
      (omega (arith, length-drop t.cursor t.content)) here long

advance-length : (n : ℕ) (t : Tokenizer) → n ≤ length (rest_of t) → length (advance n t).0 ≡ n
unfolding advance
advance-length n t h =
    let short : min n (length (rest_of t)) ≡ n = omega arith in
    rw short (length-take n (rest_of t) h)

-- Before the end of the content, if a token stands at the cursor, the lexeme is at least as long: the
-- longest token wins.
pub next_pure-longest :
    (t : Tokenizer) (it : Text)
    → IsValid t
    → t.cursor < length t.content
    → one_of t.tokens it ≡ true
    → is_prefix it (rest_of t) ≡ true
    → length it ≤ length (next_pure t).0
unfolding next_pure
next_pure-longest t it v more mem pre = elim (Bool-cases (t.cursor == length t.content)) [
  | inl done ↦ absurd (ground (arith, done))
  | inr not_done ↦
      let e = advance-length (width t) t (width-le t v) in
      let le = width-longest t it more mem pre in rw not_done (omega arith)
]
