-- ===== src/Utils/Toml/Quoted.antt =====
-- A quoted string is read as it was written.
use cgroup_monitor.Prelude.{
  ℕ, zero, suc, ◌<◌, ◌≡◌, refl, ap, sym, subst, ◌∙◌, inl, inr, ◌⊎◌, true, false, [], ◌∷◌, ◌++◌,
  Text, All, ◌==◌, arith, length, length-append, text_eq, Bool-cases,
}
use mathlib.Core.List.{append-nil, append_assoc}
use cgroup_monitor.Utils.Tokenizer.{Tokenizer, one_of}
use cgroup_monitor.Utils.Tokenizer.Separators.{mem, Lacks}
use cgroup_monitor.Utils.Tokenizer.Separated.{text_eq-some}
use cgroup_monitor.Utils.Tokenizer.Last.{Lacks-cons, Lacks-nil}
use cgroup_monitor.Utils.Toml.{done, comments, token, string_loop}
use cgroup_monitor.Utils.Toml.Ends.{mark_bytes}
use cgroup_monitor.Utils.Toml.Lexed.{Left, IsWord}
use cgroup_monitor.Utils.Toml.Tokens.{Token, token-raw_word, token-raw_mark}

-- A text that quotes can hold: no double quote, and no hash, which begins a comment.
abbrev pub IsQuotable : Text → Type 0
IsQuotable = All (λ c. ((c == 34) ≡ false) × ((c == 35) ≡ false))

-- Nothing, or a mark in front.
abbrev pub EndsWord : Text → Type 0
EndsWord r = (r ≡ []) ⊎ ((c : ℕ) × (more : Text) × (r ≡ c ∷ more) × (mem c mark_bytes ≡ true))

-- A text up to its first mark.
record Split (s : Text) : Type 0 where
  word : Text
  more : Text
  divides : s ≡ word ++ more
  lacks : All (Lacks word) mark_bytes
  ends : EndsWord more

split : (s : Text) → Split s
split [] = record {
  word = [];
  more = [];
  divides = refl;
  lacks = Lacks-nil mark_bytes;
  ends = inl refl;
}
split (c ∷ s) = elim (Bool-cases (mem c mark_bytes)) [
  | inl mark ↦ record {
    word = [];
    more = c ∷ s;
    divides = refl;
    lacks = Lacks-nil mark_bytes;
    ends = inr (c, s, refl, mark);
  }
  | inr plain ↦
      let h = split s in
      record {
        word = c ∷ h.word;
        more = h.more;
        divides = ap (◌∷◌ c) h.divides;
        lacks = Lacks-cons mark_bytes c h.word plain h.lacks;
        ends = h.ends;
      }
]

-- The first lexeme of a quoted text.
record Head (s after : Text) (t : Tokenizer) : Type 0 where
  word : Text
  more : Text
  divides : s ≡ word ++ more
  some_byte : 0 < length word
  lexed : Token false word (more ++ 34 ∷ after) (token t)

word-lexed :
    (w more after : Text) (t : Tokenizer)
    → IsWord w
    → EndsWord more
    → Left false t (w ++ (more ++ 34 ∷ after))
    → Token false w (more ++ 34 ∷ after) (token t)
word-lexed w more after t is (inl e) =
    subst (λ x. Left false t (w ++ (x ++ 34 ∷ after)) → Token false w (x ++ 34 ∷ after) (token t))
      (sym e) (λ r. token-raw_word t w 34 after r is refl)
word-lexed w more after t is (inr (d, rest, e, mark)) =
    subst (λ x. Left false t (w ++ (x ++ 34 ∷ after)) → Token false w (x ++ 34 ∷ after) (token t))
      (sym e) (λ r. token-raw_word t w d (rest ++ 34 ∷ after) r is mark)

lexeme-Head :
    (c : ℕ) (s after : Text) (t : Tokenizer)
    → (c == 35) ≡ false
    → Left false t ((c ∷ s) ++ 34 ∷ after)
    → Head (c ∷ s) after t
unfolding one_of text_eq
lexeme-Head c s after t no_hash r = elim (Bool-cases (mem c mark_bytes)) [
  | inl mark ↦ record {
    word = c ∷ [];
    more = s;
    divides = refl;
    some_byte = omega arith;
    lexed = token-raw_mark t c (s ++ 34 ∷ after) r mark (ground (arith, no_hash));
  }
  | inr plain ↦
      let h = split s in
      let w = c ∷ h.word in
      let left : Left false t (w ++ (h.more ++ 34 ∷ after)) =
        subst (Left false t)
          (ap (λ (x : Text). (c ∷ x) ++ 34 ∷ after) h.divides ∙ append_assoc w h.more (34 ∷ after))
          r in
      record {
        word = w;
        more = h.more;
        divides = ap (◌∷◌ c) h.divides;
        some_byte = omega arith;
        lexed =
            word-lexed w h.more after t (Lacks-cons mark_bytes c h.word plain h.lacks, omega arith)
              h.ends left;
      }
]

All-right : (P : ℕ → Type 0) (xs ys : Text) → All P (xs ++ ys) → All P ys
All-right P [] ys h = h
All-right P (x ∷ xs) ys (p, h) = All-right P xs ys h

no_quote : (w more : Text) → 0 < length w → IsQuotable (w ++ more) → text_eq w (34 ∷ []) ≡ false
unfolding text_eq
no_quote [] more h q = absurd (omega arith)
no_quote (c ∷ w) more h ((n, m), q) = ground (arith, n)

quote-tests :
    (one_of comments (34 ∷ []) ≡ false)
    × (text_eq (34 ∷ []) [] ≡ false)
    × (text_eq (34 ∷ []) (34 ∷ []) ≡ true)
unfolding one_of text_eq
quote-tests = (refl, refl, refl)

-- The loop reads a text up to the quote behind it.
pub string_loop-quoted :
    (fuel : ℕ) (s after out : Text) (t : Tokenizer)
    → length s < fuel
    → IsQuotable s
    → Left false t (s ++ 34 ∷ after)
    → (t' : Tokenizer) × (string_loop fuel (34 ∷ []) out t ≡ done (out ++ s) t')
      × Left false t' after
unfolding string_loop
string_loop-quoted zero s after out t h q r = absurd (omega arith)
string_loop-quoted (suc fuel) [] after out t h q r =
    let (plain, some_byte, same) = quote-tests in
    let k = token-raw_mark t 34 after r refl plain in
    (
      k.behind,
      rw (k.reads, some_byte, same) (ap (λ (x : Text). done x k.behind) (sym (append-nil out))),
      k.after,
    )
string_loop-quoted (suc fuel) (c ∷ s) after out t h q r =
    let k = lexeme-Head c s after t q.0.1 r in
    let rest : Left false k.lexed.behind (k.more ++ 34 ∷ after) = k.lexed.after in
    let q' = subst IsQuotable k.divides q in
    let (t', e, l) =
      string_loop-quoted fuel k.more after (out ++ k.word) k.lexed.behind
        (omega (arith, ap length k.divides, length-append k.word k.more, k.some_byte, h))
        (All-right _ k.word k.more q') rest in
    let whole : (out ++ k.word) ++ k.more ≡ out ++ (c ∷ s) =
      append_assoc out k.word k.more ∙ ap (◌++◌ out) (sym k.divides) in
    (
      t',
      rw (k.lexed.reads, text_eq-some k.word k.some_byte, no_quote k.word k.more k.some_byte q')
          (e ∙ ap (λ (x : Text). done x t') whole),
      l,
    )
