-- ===== src/Utils/Toml/Tokens.antt =====
-- The tokens of a text that is written as toml.cc writes it, and the way back from each.
use cgroup_monitor.Prelude.{
  ℕ, zero, suc, ◌+◌, ◌<◌, ◌≡◌, ◌≢◌, refl, ap, sym, subst, ◌∙◌, Bool, true, false, some, [], ◌∷◌,
  ◌++◌, Text, All, ◌==◌, arith, length, length-append, text_eq,
}
use cgroup_monitor.Utils.Tokenizer.{Tokenizer, next_pure, advance, next, one_of, rewind}
use cgroup_monitor.Utils.Tokenizer.Next.{next_pure-rewind}
use cgroup_monitor.Utils.Tokenizer.Separators.{mem}
use cgroup_monitor.Utils.Toml.{Parsed, done, comments, token_of, token, back_to, back}
use cgroup_monitor.Utils.Toml.Ends.{mark_bytes}
use cgroup_monitor.Utils.Toml.Lexed.{
  Left, advance-Left, next_pure-Left, mark-width, Lexed, IsWord, IsPlain, IsBlank, next-blank,
  next-gap, next-word, next-mark,
}

-- A token of the parser, with the way back.
pub record Token (b : Bool) (x more : Text) (r : Parsed Text) : Type 0 where
  pub at : Tokenizer
  pub behind : Tokenizer
  pub reads : r ≡ done x behind
  pub returns : back behind ≡ done tt at
  pub before : Left b at (x ++ more)
  pub after : Left b behind more

token-of :
    (b : Bool) (x more : Text) (t : Tokenizer)
    → Lexed b x more (next (length t.content + 2) t)
    → Token b x more (token t)
unfolding token back
token-of b x more t l = record {
  at = l.at;
  behind = l.behind;
  reads = ap token_of l.reads;
  returns = ap back_to l.returns;
  before = l.before;
  after = l.after;
}

-- A word behind blanks, in front of a mark.
pub token-word :
    (t : Tokenizer) (g w : Text) (sep : ℕ) (more : Text)
    → Left true t (g ++ (w ++ sep ∷ more))
    → All IsBlank g
    → IsWord w
    → mem sep mark_bytes ≡ true
    → Token true w (sep ∷ more) (token t)
token-word t g w sep more r bs is m = token-of true w (sep ∷ more) t (
    next-gap g (w ++ sep ∷ more) w (sep ∷ more) (length t.content + 2) t r bs
      (omega (arith, r.place, length-append g (w ++ sep ∷ more)))
      (λ fuel' t' r'. next-word true fuel' t' w sep more r' is m))

-- A mark behind blanks.
pub token-mark :
    (t : Tokenizer) (g : Text) (sep : ℕ) (more : Text)
    → Left true t (g ++ sep ∷ more)
    → All IsBlank g
    → mem sep mark_bytes ≡ true
    → IsPlain true (sep ∷ [])
    → Token true (sep ∷ []) more (token t)
token-mark t g sep more r bs m plain = token-of true (sep ∷ []) more t (
    next-gap g (sep ∷ more) (sep ∷ []) more (length t.content + 2) t r bs
      (omega (arith, r.place, length-append g (sep ∷ more)))
      (λ fuel' t' r'. next-mark true fuel' t' sep more r' m plain))

-- Within quotes blanks are read too.
pub token-raw_word :
    (t : Tokenizer) (w : Text) (sep : ℕ) (more : Text)
    → Left false t (w ++ sep ∷ more)
    → IsWord w
    → mem sep mark_bytes ≡ true
    → Token false w (sep ∷ more) (token t)
token-raw_word t w sep more r is m = token-of false w (sep ∷ more) t (
    subst (λ k. Lexed false w (sep ∷ more) (next k t)) {x = suc (length t.content + 1)}
      (omega arith) (next-word false (length t.content + 1) t w sep more r is m))

pub token-raw_mark :
    (t : Tokenizer) (sep : ℕ) (more : Text)
    → Left false t (sep ∷ more)
    → mem sep mark_bytes ≡ true
    → one_of comments (sep ∷ []) ≡ false
    → Token false (sep ∷ []) more (token t)
token-raw_mark t sep more r m no_comment = token-of false (sep ∷ []) more t (
    subst (λ k. Lexed false (sep ∷ []) more (next k t)) {x = suc (length t.content + 1)}
      (omega arith) (next-mark false (length t.content + 1) t sep more r m (no_comment, refl)))

-- At the end of the content nothing is read, and the way back leads to the last line feed.
pub record AtEnd (r : Parsed Text) : Type 0 where
  pub at : Tokenizer
  pub behind : Tokenizer
  pub reads : r ≡ done [] behind
  pub returns : back behind ≡ done tt at
  pub before : Left true at (10 ∷ [])

next-nothing : (fuel : ℕ) (t : Tokenizer) → Left true t [] → next (suc fuel) t ≡ some ([], t)
unfolding next next_pure one_of text_eq
next-nothing fuel t r =
    let at_end : (t.cursor == length t.content) ≡ true = ground (arith, r.place) in
    rw (at_end, r.commenting) refl

line-IsBlank : IsBlank 10
unfolding one_of text_eq
line-IsBlank = (refl, refl, refl)

next-end :
    (g : Text) (fuel : ℕ) (t : Tokenizer)
    → Left true t (g ++ 10 ∷ [])
    → All IsBlank g
    → length g + 1 < fuel
    → (t1 : Tokenizer) × (t0 : Tokenizer) × (next fuel t ≡ some ([], t1))
      × (rewind t1 ≡ some t0)
      × Left true t0 (10 ∷ [])
next-end g zero t r bs h = absurd (omega arith)
next-end [] (suc zero) t r bs h = absurd (omega arith)
next-end [] (suc (suc fuel)) t r bs h =
    let t1 = (advance 1 t).1 in
    let p = next_pure-Left true t (10 ∷ []) [] r (mark-width true t 10 [] r refl) (omega arith) in
    (
      t1,
      t,
      next-blank (suc fuel) t 10 [] r line-IsBlank
          ∙ next-nothing fuel t1 (advance-Left true t (10 ∷ []) [] r),
      subst (λ (q : Text × Tokenizer). rewind q.1 ≡ some t) p
          (next_pure-rewind t
            (subst (λ (q : Text × Tokenizer). q.0 ≢ []) (sym p) (λ e. absurd (cc)))),
      r,
    )
next-end (c ∷ g) (suc fuel) t r (b, bs) h =
    let (t1, t0, e, u, l) =
      next-end g fuel (advance 1 t).1 (advance-Left true t (c ∷ []) (g ++ 10 ∷ []) r) bs
        (omega (arith, h)) in
    (t1, t0, next-blank fuel t c (g ++ 10 ∷ []) r b ∙ e, u, l)

pub token-end :
    (t : Tokenizer) (g : Text) → Left true t (g ++ 10 ∷ []) → All IsBlank g → AtEnd (token t)
unfolding token back
token-end t g r bs =
    let (t1, t0, e, u, l) =
      next-end g (length t.content + 2) t r bs
        (omega (arith, r.place, length-append g (10 ∷ []))) in
    record { at = t0; behind = t1; reads = ap token_of e; returns = ap back_to u; before = l }
