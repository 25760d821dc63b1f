-- ===== src/Utils/Tokenizer/Last.antt =====
-- A content that ends with a line feed, where the line feed and every other token is a single byte: what
-- a tokenizer keeps of it, so that `rewind` leads from the end to that line feed.
use cgroup_monitor.Prelude.{
  ℕ, ◌+◌, ◌^◌, ◌<◌, ◌≤◌, ◌≡◌, refl, ap, inl, inr, true, false, List, [], ◌∷◌, ◌++◌, Text, All,
  Bool-cases, arith, length, length-append,
}
use cgroup_monitor.Utils.Tokenizer.{Tokenizer, scan, cut, rest_of, width}
use cgroup_monitor.Utils.Tokenizer.Separators.{mem, Lacks, singles, Settled, scan-Settled}

-- The nearest separator of a text that ends with one.
pub Lacks-cons :
    (seps : List ℕ) (c : ℕ) (w : Text)
    → mem c seps ≡ false
    → All (Lacks w) seps
    → All (Lacks (c ∷ w)) seps
Lacks-cons [] c w m l = tt
Lacks-cons (y ∷ ys) c w m (l, ls) =
    ((ground (arith, m), l), Lacks-cons ys c w (ground (arith, m)) ls)

pub Lacks-nil : (seps : List ℕ) → All (Lacks []) seps
Lacks-nil [] = tt
Lacks-nil (y ∷ ys) = (tt, Lacks-nil ys)

record Nearest (seps : List ℕ) (last : ℕ) (v : Text) : Type 0 where
  word : Text
  sep : ℕ
  more : Text
  divides : v ++ last ∷ [] ≡ word ++ sep ∷ more
  lacks : All (Lacks word) seps
  is_separator : mem sep seps ≡ true
  near : length word ≤ length v

nearest : (seps : List ℕ) (last : ℕ) (v : Text) → mem last seps ≡ true → Nearest seps last v
nearest seps last [] m = record {
  word = [];
  sep = last;
  more = [];
  divides = refl;
  lacks = Lacks-nil seps;
  is_separator = m;
  near = omega arith;
}
nearest seps last (c ∷ v) m = elim (Bool-cases (mem c seps)) [
  | inl here ↦ record {
    word = [];
    sep = c;
    more = v ++ last ∷ [];
    divides = refl;
    lacks = Lacks-nil seps;
    is_separator = here;
    near = omega arith;
  }
  | inr far ↦
      let n = nearest seps last v m in
      record {
        word = c ∷ n.word;
        sep = n.sep;
        more = n.more;
        divides = ap (◌∷◌ c) n.divides;
        lacks = Lacks-cons seps c n.word far n.lacks;
        is_separator = n.is_separator;
        near = omega (arith, n.near);
      }
]

cut-near :
    (n k m best beg : ℕ) → Settled k (best, beg) → k < n → k ≤ m → 0 < m → cut n (best, beg) ≤ m
cut-near n k m best beg s h l p = ground arith

-- One lexeme does not reach over the last separator.
pub width-last :
    (seps : List ℕ) (last : ℕ) (t : Tokenizer) (v : Text)
    → t.tokens ≡ singles seps
    → mem last seps ≡ true
    → rest_of t ≡ v ++ last ∷ []
    → t.cursor + length v < 2 ^ 31
    → 0 < length v
    → width t ≤ length v
unfolding width
width-last seps last t v ts m e short h =
    let n = nearest seps last v m in
    let settled : Settled (length n.word)
        (scan (rest_of t) t.cursor t.tokens 0 (length (rest_of t))) =
      rw (e, ts, n.divides)
        (scan-Settled seps n.word n.sep n.more t.cursor 0 (length (n.word ++ n.sep ∷ n.more))
          n.lacks (omega (arith, n.near))
          (inr (omega (arith, length-append n.word (n.sep ∷ n.more)))) (inl n.is_separator)) in
    let longer : length n.word < length (rest_of t) =
      omega (arith, ap length e, length-append v (last ∷ []), n.near) in
    cut-near (length (rest_of t)) (length n.word) (length v) _ _ settled longer n.near h
