-- ===== src/Utils/Toml/Lexed.antt =====
-- The lexemes of a text that is written as toml.cc writes it.
use cgroup_monitor.Prelude.{
  ℕ, zero, suc, ◌+◌, ◌^◌, ◌<◌, ◌≡◌, ◌≢◌, refl, ap, sym, subst, ◌∙◌, inl, inr, Bool, true, false,
  not, ◌||◌, Option, some, [], ◌∷◌, ◌++◌, Text, All, ◌==◌, arith, length, length-append, take, drop,
  min, text_eq,
}
use cgroup_monitor.Utils.Tokenizer.{
  Tokenizer, scan, next_pure, rest_of, width, advance, next, one_of, rewind,
}
use cgroup_monitor.Utils.Tokenizer.Lexeme.{drop-drop}
use cgroup_monitor.Utils.Tokenizer.Next.{next_pure-rewind}
use cgroup_monitor.Utils.Tokenizer.Separators.{mem, Lacks, singles, Settled, scan-Settled}
use cgroup_monitor.Utils.Tokenizer.Separated.{
  cut-word, cut-separator, take-front, drop-front, text_eq-some,
}
use cgroup_monitor.Utils.Toml.{blanks, comments}
use cgroup_monitor.Utils.Toml.Ends.{mark_bytes}

-- What a tokenizer of the parser has left to read; b says whether it skips blanks.
pub record Left (b : Bool) (t : Tokenizer) (rest : Text) : Type 0 where
  pub separators : t.tokens ≡ singles mark_bytes
  pub skipping : t.skips ≡ blanks
  pub commenting : t.comments ≡ comments
  pub skips_now : t.do_skip ≡ b
  pub left : rest_of t ≡ rest
  pub place : t.cursor + length rest ≡ length t.content
  pub short : length t.content < 2 ^ 31

pub advance-Left :
    (b : Bool) (t : Tokenizer) (x more : Text)
    → Left b t (x ++ more)
    → Left b (advance (length x) t).1 more
unfolding advance
advance-Left b t x more r = record {
  separators = r.separators;
  skipping = r.skipping;
  commenting = r.commenting;
  skips_now = r.skips_now;
  left =
      sym (drop-drop (length x) t.cursor t.content)
      ∙ ap (drop (length x)) r.left
      ∙ drop-front x more;
  place = omega (arith, r.place, length-append x more);
  short = r.short;
}

pub next_pure-Left :
    (b : Bool) (t : Tokenizer) (x more : Text)
    → Left b t (x ++ more)
    → width t ≡ length x
    → 0 < length x
    → next_pure t ≡ (x, (advance (length x) t).1)
unfolding next_pure advance
next_pure-Left b t x more r wide some_byte =
    let n = length-append x more in
    let inside : (t.cursor == length t.content) ≡ false = ground (arith, n, r.place) in
    let all : min (length x) (length (x ++ more)) ≡ length x = omega (arith, n) in
    let cut_off : take (min (length x) (length (rest_of t))) (rest_of t) ≡ x =
      rw (r.left, all) (take-front x more) in
    rw (inside, wide) λ k. (cut_off k, (advance (length x) t).1)

-- A text without any of the marks, or one mark, is one lexeme.
scanned :
    (b : Bool) (t : Tokenizer) (w : Text) (sep : ℕ) (more : Text)
    → Left b t (w ++ sep ∷ more)
    → All (Lacks w) mark_bytes
    → mem sep mark_bytes ≡ true
    → Settled (length w) (scan (rest_of t) t.cursor t.tokens 0 (length (rest_of t)))
scanned b t w sep more r l m =
    let n = length-append w (sep ∷ more) in
    rw (r.left, r.separators)
      (scan-Settled mark_bytes w sep more t.cursor 0 (length (w ++ sep ∷ more)) l
        (omega (arith, n, r.place, r.short)) (inr (omega (arith, n))) (inl m))

abbrev pub IsWord : Text → Type 0
IsWord w = All (Lacks w) mark_bytes × (0 < length w)

word-width :
    (b : Bool) (t : Tokenizer) (w : Text) (sep : ℕ) (more : Text)
    → Left b t (w ++ sep ∷ more)
    → IsWord w
    → mem sep mark_bytes ≡ true
    → width t ≡ length w
unfolding width
word-width b t w sep more r (l, p) m =
    let n = length-append w (sep ∷ more) in
    cut-word (length (rest_of t)) (length w) _ _ (scanned b t w sep more r l m)
      (omega (arith, ap length r.left, n)) p

pub mark-width :
    (b : Bool) (t : Tokenizer) (sep : ℕ) (more : Text)
    → Left b t (sep ∷ more)
    → mem sep mark_bytes ≡ true
    → width t ≡ 1
unfolding width
mark-width b t sep more r m =
    cut-separator (length (rest_of t)) _ _
      (scanned b t [] sep more r
        (tt, (tt, (tt, (tt, (tt, (tt, (tt, (tt, (tt, (tt, (tt, (tt, (tt, tt))))))))))))) m)
      (omega (arith, ap length r.left))

-- The lexeme at the cursor, with the state behind it, from which `rewind` leads back.
pub record Lexed (b : Bool) (x more : Text) (r : Option (Text × Tokenizer)) : Type 0 where
  pub at : Tokenizer
  pub behind : Tokenizer
  pub reads : r ≡ some (x, behind)
  pub returns : rewind behind ≡ some at
  pub before : Left b at (x ++ more)
  pub after : Left b behind more

abbrev pub IsPlain : Bool → Text → Type 0
IsPlain b x = (one_of comments x ≡ false) × ((not b || not (one_of blanks x)) ≡ true)

-- A lexeme that is no comment and is not skipped.
next-plain :
    (b : Bool) (fuel : ℕ) (t : Tokenizer) (x more : Text)
    → Left b t (x ++ more)
    → width t ≡ length x
    → 0 < length x
    → IsPlain b x
    → Lexed b x more (next (suc fuel) t)
unfolding next
next-plain b fuel t x more r wide some_byte (no_comment, wanted) =
    let p = next_pure-Left b t x more r wide some_byte in
    let e = text_eq-some x some_byte in
    let c : one_of t.comments x ≡ false = rw (r.commenting) no_comment in
    let s : (not t.do_skip || not (one_of t.skips x)) ≡ true =
      rw (r.skips_now, r.skipping) wanted in
    record {
      at = t;
      behind = (advance (length x) t).1;
      reads = rw (p, c, e, s) refl;
      returns =
          subst (λ (q : Text × Tokenizer). rewind q.1 ≡ some t) p
            (next_pure-rewind t (
              subst (λ (q : Text × Tokenizer). q.0 ≢ []) (sym p)
                (λ n. absurd (omega (arith, ap length n, some_byte)))));
      before = r;
      after = advance-Left b t x more r;
    }

-- The bytes that are passed over.
abbrev pub IsBlank : ℕ → Type 0
IsBlank c =
    (mem c mark_bytes ≡ true) × (one_of blanks (c ∷ []) ≡ true) × (one_of comments (c ∷ []) ≡ false)

pub next-blank :
    (fuel : ℕ) (t : Tokenizer) (c : ℕ) (more : Text)
    → Left true t (c ∷ more)
    → IsBlank c
    → next (suc fuel) t ≡ next fuel (advance 1 t).1
unfolding next
next-blank fuel t c more r (m, blank, no_comment) =
    let p = next_pure-Left true t (c ∷ []) more r (mark-width true t c more r m) (omega arith) in
    let e = text_eq-some (c ∷ []) (omega arith) in
    let n : one_of t.comments (c ∷ []) ≡ false = rw (r.commenting) no_comment in
    let s : (not t.do_skip || not (one_of t.skips (c ∷ []))) ≡ false =
      rw (r.skips_now, r.skipping, blank) refl in
    rw (p, n, e, s) refl

-- What stands behind blanks is read from there.
pub next-gap :
    (g : Text) (rest x more : Text) (fuel : ℕ) (t : Tokenizer)
    → Left true t (g ++ rest)
    → All IsBlank g
    → length g < fuel
    → ((fuel' : ℕ) (t' : Tokenizer) → Left true t' rest → Lexed true x more (next (suc fuel') t'))
    → Lexed true x more (next fuel t)
next-gap [] rest x more zero t r bs h k = absurd (omega arith)
next-gap [] rest x more (suc fuel) t r bs h k = k fuel t r
next-gap (c ∷ g) rest x more zero t r bs h k = absurd (omega arith)
next-gap (c ∷ g) rest x more (suc fuel) t r (blank, bs) h k =
    subst (Lexed true x more) (sym (next-blank fuel t c (g ++ rest) r blank)) (
      next-gap g rest x more fuel (advance 1 t).1 (advance-Left true t (c ∷ []) (g ++ rest) r) bs
        (omega (arith, h)) k)

pub single-apart : (c : ℕ) (w : Text) → Lacks w c → 0 < length w → text_eq (c ∷ []) w ≡ false
unfolding text_eq
single-apart c [] l p = absurd (omega arith)
single-apart c (d ∷ w) (l, ls) p = ground (arith, l)

word-IsPlain : (b : Bool) (w : Text) → IsWord w → IsPlain b w
unfolding one_of
word-IsPlain b w
      (
        (
          l91,
          (l93, (l123, (l125, (l61, (l44, (l39, (l34, (l32, (l10, (l9, (l13, (l35, tt)))))))))))),
        ),
        p,
      ) =
    let e32 = single-apart 32 w l32 p in
    let e10 = single-apart 10 w l10 p in
    let e9 = single-apart 9 w l9 p in
    let e13 = single-apart 13 w l13 p in
    let e35 = single-apart 35 w l35 p in (rw (e35) refl, rw (e32, e9, e10, e13) (ground arith))

pub next-word :
    (b : Bool) (fuel : ℕ) (t : Tokenizer) (w : Text) (sep : ℕ) (more : Text)
    → Left b t (w ++ sep ∷ more)
    → IsWord w
    → mem sep mark_bytes ≡ true
    → Lexed b w (sep ∷ more) (next (suc fuel) t)
next-word b fuel t w sep more r is m =
    next-plain b fuel t w (sep ∷ more) r (word-width b t w sep more r is m) is.1
      (word-IsPlain b w is)

pub next-mark :
    (b : Bool) (fuel : ℕ) (t : Tokenizer) (sep : ℕ) (more : Text)
    → Left b t (sep ∷ more)
    → mem sep mark_bytes ≡ true
    → IsPlain b (sep ∷ [])
    → Lexed b (sep ∷ []) more (next (suc fuel) t)
next-mark b fuel t sep more r m plain =
    next-plain b fuel t (sep ∷ []) more r (mark-width b t sep more r m) (omega arith) plain
