-- ===== src/Utils/Tokenizer/Separated.antt =====
-- `next` when every token is a single byte: it cuts the text at the separators.
use cgroup_monitor.Prelude.{
  ℕ, suc, ◌+◌, ◌^◌, ◌<◌, ◌≡◌, refl, ap, sym, subst, ◌∙◌, inl, inr, true, false, ◌||◌, some, List,
  [], ◌∷◌, ◌++◌, Text, All, ◌==◌, arith, length, length-append, take, drop, min, text_eq, not,
}
use cgroup_monitor.Utils.Tokenizer.{
  Tokenizer, scan, cut, next_pure, rest_of, width, advance, next, one_of,
}
use mathlib.Core.List.{append-nil}
use cgroup_monitor.Utils.Tokenizer.Lexeme.{drop-drop}
use cgroup_monitor.Utils.Tokenizer.Separators.{
  mem, Lacks, singles, Settled, scan-Settled, scan-none,
}

-- What a tokenizer that cuts at single bytes has left to read.
pub record Reads (seps : List ℕ) (t : Tokenizer) (rest : Text) : Type 0 where
  pub separators : t.tokens ≡ singles seps
  pub skipping : t.skips ≡ (32 ∷ []) ∷ []
  pub comments_none : t.comments ≡ []
  pub left : rest_of t ≡ rest
  pub place : t.cursor + length rest ≡ length t.content
  pub short : length t.content < 2 ^ 31

pub take-front : (x more : Text) → take (length x) (x ++ more) ≡ x
take-front [] more = refl
take-front (c ∷ x) more = ap (◌∷◌ c) (take-front x more)

pub drop-front : (x more : Text) → drop (length x) (x ++ more) ≡ more
drop-front [] more = refl
drop-front (c ∷ x) more = drop-front x more

advance-Reads :
    (seps : List ℕ) (t : Tokenizer) (x more : Text)
    → Reads seps t (x ++ more)
    → Reads seps (advance (length x) t).1 more
unfolding advance
advance-Reads seps t x more r = record {
  separators = r.separators;
  skipping = r.skipping;
  comments_none = r.comments_none;
  left =
      sym (drop-drop (length x) t.cursor t.content)
      ∙ ap (drop (length x)) r.left
      ∙ drop-front x more;
  place = omega (arith, r.place, length-append x more);
  short = r.short;
}

next_pure-width :
    (seps : List ℕ) (t : Tokenizer) (x more : Text)
    → Reads seps t (x ++ more)
    → width t ≡ length x
    → 0 < length x
    → next_pure t ≡ (x, (advance (length x) t).1)
unfolding next_pure advance
next_pure-width seps t x more r wide some_byte =
    let n = length-append x more in
    let inside : (t.cursor == length t.content) ≡ false = ground (arith, n, r.place) in
    let all : min (length x) (length (x ++ more)) ≡ length x = omega (arith, n) in
    let cut_off : take (min (length x) (length (rest_of t))) (rest_of t) ≡ x =
      rw (r.left, all) (take-front x more) in
    rw (inside, wide) λ k. (cut_off k, (advance (length x) t).1)

pub text_eq-some : (x : Text) → 0 < length x → text_eq x [] ≡ false
unfolding text_eq
text_eq-some [] h = absurd (omega arith)
text_eq-some (c ∷ x) h = refl

-- One lexeme of a known width, which is nothing to skip.
next-width :
    (seps : List ℕ) (fuel : ℕ) (t : Tokenizer) (x more : Text)
    → Reads seps t (x ++ more)
    → width t ≡ length x
    → 0 < length x
    → text_eq (32 ∷ []) x ≡ false
    → next (suc fuel) t ≡ some (x, (advance (length x) t).1)
unfolding next one_of
next-width seps fuel t x more r wide some_byte no_blank =
    let p = next_pure-width seps t x more r wide some_byte in
    let e = text_eq-some x some_byte in
    let wanted : (not t.do_skip || not (one_of t.skips x)) ≡ true =
      rw (r.skipping, no_blank) (ground arith) in
    let no_comment : one_of t.comments x ≡ false = rw (r.comments_none) refl in
    rw (p, no_comment, e, wanted) refl

scanned :
    (seps : List ℕ) (t : Tokenizer) (w : Text) (sep : ℕ) (more : Text)
    → Reads seps t (w ++ sep ∷ more)
    → All (Lacks w) seps
    → mem sep seps ≡ true
    → Settled (length w) (scan (rest_of t) t.cursor t.tokens 0 (length (rest_of t)))
scanned seps t w sep more r l m =
    let n = length-append w (sep ∷ more) in
    rw (r.left, r.separators)
      (scan-Settled seps w sep more t.cursor 0 (length (w ++ sep ∷ more)) l
        (omega (arith, n, r.place, r.short)) (inr (omega (arith, n))) (inl m))

pub cut-word : (n k best beg : ℕ) → Settled k (best, beg) → k < n → 0 < k → cut n (best, beg) ≡ k
cut-word n k best beg s l h = ground arith

pub cut-separator : (n best beg : ℕ) → Settled 0 (best, beg) → 0 < n → cut n (best, beg) ≡ 1
cut-separator n best beg s h = ground arith

cut-end : (n : ℕ) → cut n (0, n) ≡ n
cut-end n = ground arith

length-left :
    (seps : List ℕ) (t : Tokenizer) (rest : Text)
    → Reads seps t rest
    → length (rest_of t) ≡ length rest
length-left seps t rest r = ap length r.left

-- The next lexeme, and what is left behind it.
abbrev pub Cuts : List ℕ → ℕ → Tokenizer → Text → Text → Type 0
Cuts seps fuel t x more = (t' : Tokenizer) × (next fuel t ≡ some (x, t')) × Reads seps t' more

cuts :
    (seps : List ℕ) (fuel : ℕ) (t : Tokenizer) (x more : Text)
    → Reads seps t (x ++ more)
    → width t ≡ length x
    → 0 < length x
    → text_eq (32 ∷ []) x ≡ false
    → Cuts seps (suc fuel) t x more
cuts seps fuel t x more r wide some_byte no_blank = (
  (advance (length x) t).1,
  next-width seps fuel t x more r wide some_byte no_blank,
  advance-Reads seps t x more r,
)

-- A word in front of a separator is the next lexeme.
pub next-word :
    (seps : List ℕ) (fuel : ℕ) (t : Tokenizer) (w : Text) (sep : ℕ) (more : Text)
    → Reads seps t (w ++ sep ∷ more)
    → All (Lacks w) seps
    → mem sep seps ≡ true
    → 0 < length w
    → text_eq (32 ∷ []) w ≡ false
    → Cuts seps (suc fuel) t w (sep ∷ more)
unfolding width
next-word seps fuel t w sep more r l m some_byte no_blank =
    let (best, beg) = scan (rest_of t) t.cursor t.tokens 0 (length (rest_of t)) in
    let inside : length w < length (rest_of t) =
      omega (arith, length-left seps t (w ++ sep ∷ more) r, length-append w (sep ∷ more)) in
    cuts seps fuel t w (sep ∷ more) r
      (cut-word (length (rest_of t)) (length w) best beg (scanned seps t w sep more r l m) inside
        some_byte)
      some_byte no_blank

-- A separator at the cursor that is not skipped is the next lexeme.
pub next-separator :
    (seps : List ℕ) (fuel : ℕ) (t : Tokenizer) (sep : ℕ) (more : Text)
    → Reads seps t (sep ∷ more)
    → mem sep seps ≡ true
    → (32 == sep) ≡ false
    → Cuts seps (suc fuel) t (sep ∷ []) more
unfolding width text_eq
next-separator seps fuel t sep more r m no_blank =
    let (best, beg) = scan (rest_of t) t.cursor t.tokens 0 (length (rest_of t)) in
    let inside : 0 < length (rest_of t) = omega (arith, length-left seps t (sep ∷ more) r) in
    cuts seps fuel t (sep ∷ []) more r
      (cut-separator (length (rest_of t)) best beg (scanned seps t [] sep more r (all_lack seps) m)
        inside)
      (omega arith) (ground (arith, no_blank))
  where
    all_lack : (xs : List ℕ) → All (Lacks []) xs
    all_lack [] = tt
    all_lack (x ∷ xs) = (tt, all_lack xs)

-- What no separator follows is one lexeme up to the end.
pub next-last :
    (seps : List ℕ) (fuel : ℕ) (t : Tokenizer) (w : Text)
    → Reads seps t w
    → All (Lacks w) seps
    → 0 < length w
    → text_eq (32 ∷ []) w ≡ false
    → (t' : Tokenizer) × (next (suc fuel) t ≡ some (w, t'))
unfolding width
next-last seps fuel t w r l some_byte no_blank =
    let whole : Reads seps t (w ++ []) = subst (Reads seps t) (sym (append-nil w)) r in
    let ends : scan (rest_of t) t.cursor t.tokens 0 (length (rest_of t)) ≡ (0, length w) =
      rw (r.left, r.separators) (scan-none seps w t.cursor l (omega (arith, r.place, r.short))) in
    let wide : width t ≡ length w =
      ap (cut (length (rest_of t))) ends ∙ rw (length-left seps t w r) (cut-end (length w)) in
    let (t', e, _) = cuts seps fuel t w [] whole wide some_byte no_blank in (t', e)
