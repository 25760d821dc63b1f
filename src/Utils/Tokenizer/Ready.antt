-- ===== src/Utils/Tokenizer/Ready.antt =====
-- `next` and `rewind` over a content that ends with a line feed, where the line feed and every other
-- token is a single byte: `rewind` has somewhere to go, at the end of the content too.
use cgroup_monitor.Prelude.{
  ℕ, zero, suc, ◌+◌, ◌-◌, ◌^◌, ◌≤◌, ◌<◌, ◌≡◌, ◌≢◌, refl, ap, sym, ◌∙◌, subst, ◌⊎◌, inl, inr, Bool,
  true, false, not, ◌||◌, Option, none, some, List, [], ◌∷◌, ◌++◌, Text, codes, text_eq, arith,
  ◌==◌, if◌then◌else◌, length, length-append, length-drop, drop, drop-append, min, Bool-cases,
}
use cgroup_monitor.Utils.Tokenizer.{
  Tokenizer, next_pure, rewind, one_of, advance, skip_comment, next, rest_of, width,
}
use cgroup_monitor.Utils.Tokenizer.Lexeme.{
  IsValid, AreTokens, width-le, next_pure-Splits, next_pure-progress,
}
use cgroup_monitor.Utils.Tokenizer.Next.{Onward, Finds, next-Finds, next_pure-rewind}
use cgroup_monitor.Utils.Tokenizer.Separators.{mem, singles}
use cgroup_monitor.Utils.Tokenizer.Last.{width-last}

pub record Ready (seps : List ℕ) (n : ℕ) (t : Tokenizer) : Type 0 where
  pub size : length t.content ≡ n
  pub line_end : (u : Text) × (t.content ≡ u ++ 10 ∷ [])
  pub separators : t.tokens ≡ singles seps
  pub marks_comments : one_of t.comments [] ≡ false
  pub within : t.cursor ≤ n
  pub at_end : (t.cursor < n) ⊎ ((ls : List ℕ) × (t.last_locs ≡ (n - 1) ∷ ls))

-- How far a tokenizer is, where the last byte counts as the end.
abbrev pub pos : ℕ → Tokenizer → ℕ
pos n t = min t.cursor (n - 1)

singles-AreTokens : (seps : List ℕ) → AreTokens (singles seps)
singles-AreTokens [] = tt
singles-AreTokens (x ∷ xs) = (omega arith, singles-AreTokens xs)

-- What a property that `nextPure` keeps says of a state that may be missing.
abbrev Keeps : (Tokenizer → Type 0) → Option Tokenizer → Type 0
Keeps P none = Unit
Keeps P (some t) = P t

abbrev KeepsNext : (Tokenizer → Type 0) → Option (Text × Tokenizer) → Type 0
KeepsNext P none = Unit
KeepsNext P (some r) = P r.1

module _ (P : Tokenizer → Type 0) (kept : (t : Tokenizer) → P t → P (next_pure t).1) where
  skip_comment-Keeps : (fuel : ℕ) (x : Text) (t : Tokenizer) → P t → Keeps P (skip_comment fuel x t)
  unfolding skip_comment
  skip_comment-Keeps zero x t p = tt
  skip_comment-Keeps (suc fuel) x t p = elim (Bool-cases (text_eq x (codes "\n") || text_eq x [])) [
    | inl ends ↦ rw ends p
    | inr goes_on ↦ rw goes_on (skip_comment-Keeps fuel (next_pure t).0 (next_pure t).1 (kept t p))
  ]

  after_comment :
      (fuel : ℕ)
      → ((t : Tokenizer) → P t → KeepsNext P (next fuel t))
      → (r : Option Tokenizer) → Keeps P r
      → KeepsNext P (elim r [ none ↦ none | some t ↦ next fuel t ])
  after_comment fuel go none p = tt
  after_comment fuel go (some t) p = go t p

  KeepsNext-if :
      (b : Bool) (r s : Option (Text × Tokenizer))
      → KeepsNext P r
      → KeepsNext P s
      → KeepsNext P (if b then r else s)
  KeepsNext-if true r s h k = h
  KeepsNext-if false r s h k = k

  next-Keeps : (fuel : ℕ) (t : Tokenizer) → P t → KeepsNext P (next fuel t)
  unfolding next
  next-Keeps zero t p = tt
  next-Keeps (suc fuel) t p =
      let x = (next_pure t).0 in
      let t' = (next_pure t).1 in
      let p' = kept t p in
      KeepsNext-if (one_of t.comments x) _ _
        (after_comment fuel (next-Keeps fuel) _ (skip_comment-Keeps fuel x t' p'))
        (KeepsNext-if (text_eq x []) (some (x, t')) _ p' (
          KeepsNext-if (not t.do_skip || not (one_of t.skips x)) (some (x, t')) _ p'
            (next-Keeps fuel t' p')))

module _ (seps : List ℕ) (line : mem 10 seps ≡ true) (n : ℕ) (short : n < 2 ^ 31) where
  Ready-IsValid : (t : Tokenizer) → Ready seps n t → IsValid t
  Ready-IsValid t r = record {
    within = omega (arith, r.size, r.within);
    short = omega (arith, r.size, short);
  }

  Ready-pos : (t : Tokenizer) → Ready seps n t → 0 < n
  Ready-pos t r =
      let (u, e) = r.line_end in omega (arith, length-append u (10 ∷ []), ap length e, r.size)

  -- One lexeme ends at the last byte, or it is the last byte.
  advance-at_end :
      (t : Tokenizer)
      → Ready seps n t
      → t.cursor < n
      → (t.cursor + width t < n) ⊎ (t.cursor ≡ n - 1)
  advance-at_end t r more =
      let (u, e) = r.line_end in
      let size : suc (length u) ≡ n =
        omega (arith, length-append u (10 ∷ []), ap length e, r.size) in
      let v = drop t.cursor u in
      let rest : rest_of t ≡ v ++ 10 ∷ [] =
        ap (drop t.cursor) e ∙ drop-append t.cursor u (10 ∷ []) (omega arith) in
      elim (Bool-cases (length v == 0)) [
        | inl last ↦ inr (ground (arith, last, length-drop t.cursor u))
        | inr far ↦ inl (
            omega (
              arith,
              width-last seps 10 t v r.separators line rest (omega (arith, length-drop t.cursor u))
                  (ground (arith, far)),
              length-drop t.cursor u,
            ))
      ]

  next_pure-Ready : (t : Tokenizer) → Ready seps n t → Ready seps n (next_pure t).1
  unfolding next_pure advance
  next_pure-Ready t r = elim (Bool-cases (t.cursor == length t.content)) [
    | inl done ↦ rw done r
    | inr more ↦
        let before : t.cursor < n = ground (arith, more, r.size, r.within) in
        rw more (record {
          size = r.size;
          line_end = r.line_end;
          separators = r.separators;
          marks_comments = r.marks_comments;
          within = omega (
            arith,
            width-le t (Ready-IsValid t r),
            length-drop t.cursor t.content,
            r.size,
            r.within,
          );
          at_end = elim (advance-at_end t r before) [
            | inl more ↦ inl more
            | inr last ↦ inr (t.last_locs, ap (λ (c : ℕ). c ∷ t.last_locs) last)
          ];
        })
  ]

  -- A later state within the content, that is not at its end.
  Ready-Onward : (t t' : Tokenizer) → Ready seps n t → Onward t t' → t'.cursor < n → Ready seps n t'
  Ready-Onward t t' r o more = record {
    size = ap length o.content_kept ∙ r.size;
    line_end = (r.line_end.0, o.content_kept ∙ r.line_end.1);
    separators = o.tokens_kept ∙ r.separators;
    marks_comments = subst (λ c. one_of c [] ≡ false) (sym o.comments_kept) r.marks_comments;
    within = omega (arith, more);
    at_end = inl more;
  }

  -- Where `rewind` leads, in a content of `n` bytes.
  abbrev pub Undone : Tokenizer → Option Tokenizer → Type 0
  Undone t none = ⊥
  Undone t (some t0) = Ready seps n t0 × (pos n t ≤ pos n t0)

  -- What `next` reads in such a content.
  pub record Reads (t : Tokenizer) (x : Text) (t' : Tokenizer) : Type 0 where
    pub ready : Ready seps n t'
    pub forth : pos n t ≤ pos n t'
    pub undone : Undone t (rewind t')
    pub moves : x ≢ [] → t.cursor < t'.cursor
    pub farther : x ≢ [] → x ≢ 10 ∷ [] → pos n t < pos n t'

  -- The last byte alone is the line feed.
  last_lexeme :
      (t : Tokenizer) (x : Text)
      → Ready seps n t
      → t.cursor ≡ n - 1
      → 0 < n
      → (more : Text) → rest_of t ≡ x ++ more
      → x ≢ []
      → x ≡ 10 ∷ []
  last_lexeme t x r c h more e ne =
      let (u, eu) = r.line_end in
      let size : suc (length u) ≡ n =
        omega (arith, length-append u (10 ∷ []), ap length eu, r.size) in
      let at : t.cursor ≡ length u = omega arith in
      let rest : rest_of t ≡ 10 ∷ [] =
        ap (drop t.cursor) eu
        ∙ drop-append t.cursor u (10 ∷ []) (omega arith)
        ∙ ap (λ (k : ℕ). drop k u ++ 10 ∷ []) at
        ∙ ap (λ (w : Text). w ++ 10 ∷ []) (drop-whole u) in
      alone x more (sym e ∙ rest) ne
    where
      drop-whole : (u : Text) → drop (length u) u ≡ []
      drop-whole [] = refl
      drop-whole (c ∷ u) = drop-whole u

      alone : (x more : Text) → x ++ more ≡ 10 ∷ [] → x ≢ [] → x ≡ 10 ∷ []
      alone [] more e ne = absurd (ne refl)
      alone (c ∷ []) more e ne = cc
      alone (c ∷ d ∷ x) more e ne = absurd (omega (arith, ap length e, length-append x more))

  rewind_at_end : (t t1 : Tokenizer) → Ready seps n t → 0 < n → t.cursor ≡ n → Undone t1 (rewind t)
  unfolding rewind
  rewind_at_end t t1 r h c = elim r.at_end [
    | inl more ↦ absurd (omega arith)
    | inr (ls, e) ↦ rw e (
      record {
        size = r.size;
        line_end = r.line_end;
        separators = r.separators;
        marks_comments = r.marks_comments;
        within = omega arith;
        at_end = inl (omega arith);
      },
      omega arith,
    )
  ]

  next_pure-end : (t : Tokenizer) → t.cursor ≡ length t.content → next_pure t ≡ ([], t)
  unfolding next_pure
  next_pure-end t e = ground arith

  reads :
      (t t0 : Tokenizer)
      → Ready seps n t
      → Onward t t0
      → IsValid t0
      → Ready seps n (next_pure t0).1
      → Reads t (next_pure t0).0 (next_pure t0).1
  reads t t0 r o v r' =
      let x = (next_pure t0).0 in
      let t' = (next_pure t0).1 in
      let (cuts, moved, v') = next_pure-Splits t0 v in
      let size : length t0.content ≡ n = ap length o.content_kept ∙ r.size in
      elim (Bool-cases (t0.cursor == n)) [
        | inl done ↦
            let end : next_pure t0 ≡ ([], t0) = next_pure-end t0 (ground (arith, done, size)) in
            let r0 = subst (λ (q : Text × Tokenizer). Ready seps n q.1) end r' in
            rw end (record {
              ready = r0;
              forth = omega (arith, o.forth);
              undone = rewind_at_end t0 t r0 (Ready-pos t r) (ground (arith, done));
              moves = λ ne. absurd (ne refl);
              farther = λ ne _. absurd (ne refl);
            })
        | inr more ↦
            let before : t0.cursor < n = ground (arith, more, size, v.within) in
            let r0 = Ready-Onward t t0 r o before in
            let forward : t0.cursor < t'.cursor =
              next_pure-progress t0 v
                (subst AreTokens (sym (o.tokens_kept ∙ r.separators)) (singles-AreTokens seps))
                (omega (arith, size)) in
            let some_lexeme : x ≢ [] = λ e. absurd (omega (arith, ap length e, moved, forward)) in
            record {
              ready = r';
              forth = omega (arith, o.forth, forward);
              undone = rw (next_pure-rewind t0 some_lexeme) (r0, omega (arith, o.forth));
              moves = λ _. omega (arith, o.forth, forward);
              farther = λ ne other. elim (Bool-cases (t0.cursor == n - 1)) [
                | inl last ↦
                    absurd
                      (other (last_lexeme t0 x r0 (ground (arith, last)) (omega arith) _ cuts ne))
                | inr early ↦ ground (arith, early, o.forth, forward, before)
              ];
            }
      ]

  -- `next` reads something.
  abbrev pub Found : Tokenizer → Option (Text × Tokenizer) → Type 0
  Found t none = ⊥
  Found t (some r) = Reads t r.0 r.1

  Found-of :
      (t : Tokenizer)
      → Ready seps n t
      → (r : Option (Text × Tokenizer)) → Finds t r
      → KeepsNext (Ready seps n) r
      → Found t r
  Found-of t r none f k = f
  Found-of t r (some q) (t0, o, v, e, w) k =
      subst (λ (q : Text × Tokenizer). Reads t q.0 q.1) e
        (reads t t0 r o v (subst (λ (q : Text × Tokenizer). Ready seps n q.1) (sym e) k))

  pub next-Found :
      (fuel : ℕ) (t : Tokenizer) → Ready seps n t → n + 2 ≤ fuel → Found t (next fuel t)
  next-Found fuel t r h =
      Found-of t r (next fuel t)
        (next-Finds fuel t (Ready-IsValid t r)
          (subst AreTokens (sym r.separators) (singles-AreTokens seps)) r.marks_comments
          (omega (arith, r.size)))
        (next-Keeps (Ready seps n) next_pure-Ready fuel t r)
