-- ===== src/Utils/Tokenizer/Next.antt =====
-- `next`: it passes over comments and what is skipped, and comes to an end.
use cgroup_monitor.Prelude.{
  ℕ, zero, suc, ◌+◌, ◌≤◌, ◌<◌, ◌≡◌, refl, ap, sym, ◌∙◌, subst, ◌⊎◌, inl, inr, ◌≢◌, Bool, true,
  false, not, ◌&&◌, ◌||◌, Option, none, some, [], Text, codes, text_eq, text_eq_iff, arith, ◌==◌,
  if◌then◌else◌, length, Bool-cases,
}
use cgroup_monitor.Utils.Tokenizer.{
  Tokenizer, next_pure, rewind, one_of, advance, skip_comment, next,
}
use cgroup_monitor.Utils.Tokenizer.Lexeme.{IsValid, AreTokens, next_pure-Splits, next_pure-progress}

-- A later state of one tokenizer, its settings kept.
pub record Onward (t t' : Tokenizer) : Type 0 where
  pub content_kept : t'.content ≡ t.content
  pub tokens_kept : t'.tokens ≡ t.tokens
  pub skips_kept : t'.skips ≡ t.skips
  pub comments_kept : t'.comments ≡ t.comments
  pub do_skip_kept : t'.do_skip ≡ t.do_skip
  pub forth : t.cursor ≤ t'.cursor

Onward-refl : (t : Tokenizer) → Onward t t
Onward-refl t = record {
  content_kept = refl;
  tokens_kept = refl;
  skips_kept = refl;
  comments_kept = refl;
  do_skip_kept = refl;
  forth = omega arith;
}

Onward-trans : {t t' t'' : Tokenizer} → Onward t t' → Onward t' t'' → Onward t t''
Onward-trans a b = record {
  content_kept = b.content_kept ∙ a.content_kept;
  tokens_kept = b.tokens_kept ∙ a.tokens_kept;
  skips_kept = b.skips_kept ∙ a.skips_kept;
  comments_kept = b.comments_kept ∙ a.comments_kept;
  do_skip_kept = b.do_skip_kept ∙ a.do_skip_kept;
  forth = omega (arith, a.forth, b.forth);
}

next_pure-Onward : (t : Tokenizer) → Onward t (next_pure t).1
unfolding next_pure advance
next_pure-Onward t = elim (Bool-cases (t.cursor == length t.content)) [
  | inl done ↦ rw done (Onward-refl t)
  | inr more ↦ rw more (record {
    content_kept = refl;
    tokens_kept = refl;
    skips_kept = refl;
    comments_kept = refl;
    do_skip_kept = refl;
    forth = omega arith;
  })
]

-- A token was read, or the content is at its end.
next_pure-cases :
    (t : Tokenizer)
    → IsValid t
    → AreTokens t.tokens
    → ((next_pure t).0 ≡ []) ⊎ (t.cursor < (next_pure t).1.cursor)
unfolding next_pure
next_pure-cases t v ts = elim (Bool-cases (t.cursor == length t.content)) [
  | inl done ↦ inl (rw done refl)
  | inr more ↦ inr (next_pure-progress t v ts (ground (arith, more, v.within)))
]

-- What a loop needs of a tokenizer, with fuel beyond the bytes that are left.
record Fuelled (fuel : ℕ) (t : Tokenizer) : Type 0 where
  valid : IsValid t
  are_tokens : AreTokens t.tokens
  enough : length t.content + 2 ≤ fuel + t.cursor

Fuelled-next :
    (fuel : ℕ) (t t' : Tokenizer)
    → Fuelled (suc fuel) t
    → Onward t t'
    → IsValid t'
    → t.cursor < t'.cursor
    → Fuelled fuel t'
Fuelled-next fuel t t' f o v lt = record {
  valid = v;
  are_tokens = subst AreTokens (sym o.tokens_kept) f.are_tokens;
  enough = omega (arith, ap length o.content_kept, f.enough);
}

-- The state behind a comment.
Passed : Tokenizer → Option Tokenizer → Type 0
Passed t none = ⊥
Passed t (some t') = Onward t t' × IsValid t'

abbrev ends_line : Text → Bool
ends_line x = text_eq x (codes "\n") || text_eq x []

Passed-after : (t t' : Tokenizer) → Onward t t' → (r : Option Tokenizer) → Passed t' r → Passed t r
unfolding Passed
Passed-after t t' o none p = p
Passed-after t t' o (some t'') (o', v) = (Onward-trans o o', v)

skip_comment-end : (fuel : ℕ) (t : Tokenizer) → 0 < fuel → skip_comment fuel [] t ≡ some t
unfolding skip_comment
skip_comment-end zero t h = absurd (omega arith)
skip_comment-end (suc fuel) t h = ground (arith, text_eq_iff [] [])

skip_comment-Passed :
    (fuel : ℕ) (x : Text) (t : Tokenizer) → Fuelled fuel t → Passed t (skip_comment fuel x t)
unfolding skip_comment Passed
skip_comment-Passed zero x t f = absurd (omega (arith, f.enough, f.valid.within))
skip_comment-Passed (suc fuel) x t f =
    let o = next_pure-Onward t in
    let (cuts, moves, v) = next_pure-Splits t f.valid in
    elim (Bool-cases (ends_line x)) [
      | inl ends ↦ rw ends (Onward-refl t, f.valid)
      | inr goes_on ↦ rw goes_on (elim (next_pure-cases t f.valid f.are_tokens) [
        | inl end ↦
            rw
              (end, skip_comment-end fuel (next_pure t).1 (omega (arith, f.enough, f.valid.within)))
              (o, v)
        | inr forth ↦ Passed-after t (next_pure t).1 o _ (
            skip_comment-Passed fuel (next_pure t).0 (next_pure t).1
              (Fuelled-next fuel t (next_pure t).1 f o v forth))
      ])
    ]

-- What `next` may return: no comment, and nothing that is skipped while skipping is on.
abbrev pub is_wanted : Tokenizer → Text → Bool
is_wanted t x =
    text_eq x [] || (not (one_of t.comments x) && (not t.do_skip || not (one_of t.skips x)))

-- The result of `next`: one `nextPure`, from some later state, that cuts off what is wanted.
abbrev pub Finds : Tokenizer → Option (Text × Tokenizer) → Type 0
Finds t none = ⊥
Finds t (some r) =
    (t0 : Tokenizer) × Onward t t0 × IsValid t0 × (next_pure t0 ≡ r) × (is_wanted t r.0 ≡ true)

Finds-after :
    (t t' : Tokenizer) → Onward t t' → (r : Option (Text × Tokenizer)) → Finds t' r → Finds t r
Finds-after t t' o none p = p
Finds-after t t' o (some r) (t0, o', v, e, w) =
    (t0, Onward-trans o o', v, e, rw (o.comments_kept, o.skips_kept, o.do_skip_kept) at w)

-- What a recursive call of `next` finds, from any later state that has fuel.
Continues : ℕ → Tokenizer → Type 0
Continues fuel t =
    (t' : Tokenizer) → Onward t t' → IsValid t' → t.cursor < t'.cursor → Finds t' (next fuel t')

comment-Finds :
    (fuel : ℕ) (t t' : Tokenizer)
    → Onward t t'
    → t.cursor < t'.cursor
    → Continues fuel t
    → (r : Option Tokenizer) → Passed t' r
    → Finds t (elim r [ none ↦ none | some t'' ↦ next fuel t'' ])
unfolding Passed Continues
comment-Finds fuel t t' o lt go_on none p = p
comment-Finds fuel t t' o lt go_on (some t'') (o', v) =
    let o'' = Onward-trans o o' in
    Finds-after t t'' o'' (next fuel t'') (go_on t'' o'' v (omega (arith, o'.forth)))

-- The tests behind the comment's, as one.
abbrev kept : Tokenizer → Text × Tokenizer → Option (Text × Tokenizer) → Option (Text × Tokenizer)
kept t r again =
    if text_eq r.0 []
    then some r
    else (if not t.do_skip || not (one_of t.skips r.0) then some r else again)

kept-wanted :
    (t : Tokenizer) (r : Text × Tokenizer) (again : Option (Text × Tokenizer))
    → one_of t.comments r.0 ≡ false
    → is_wanted t r.0 ≡ true
    → kept t r again ≡ some r
kept-wanted t r again nc w = ground (arith, nc, w)

kept-other :
    (t : Tokenizer) (r : Text × Tokenizer) (again : Option (Text × Tokenizer))
    → one_of t.comments r.0 ≡ false
    → is_wanted t r.0 ≡ false
    → kept t r again ≡ again
kept-other t r again nc w = ground (arith, nc, w)

next-step :
    (fuel : ℕ) (t : Tokenizer)
    → Fuelled (suc fuel) t
    → one_of t.comments [] ≡ false
    → Continues fuel t
    → Finds t (next (suc fuel) t)
unfolding next Continues
next-step fuel t f nc go_on =
    let x = (next_pure t).0 in
    let t' = (next_pure t).1 in
    let o = next_pure-Onward t in
    let (cuts, moves, v) = next_pure-Splits t f.valid in
    elim (next_pure-cases t f.valid f.are_tokens) [
      | inl end ↦
          rw (end, nc, (text_eq_iff [] []).1 refl)
            (
              t,
              Onward-refl t,
              f.valid,
              ap (λ (y : Text). (y, t')) end,
              rw ((text_eq_iff [] []).1 refl) refl,
            )
      | inr forth ↦ elim (Bool-cases (one_of t.comments x)) [
        | inl comment ↦ rw comment (
            comment-Finds fuel t t' o forth go_on _
              (skip_comment-Passed fuel x t' (Fuelled-next fuel t t' f o v forth)))
        | inr no_comment ↦ rw no_comment (elim (Bool-cases (is_wanted t x)) [
          | inl wanted ↦
              rw (kept-wanted t (x, t') (next fuel t') no_comment wanted)
                (t, Onward-refl t, f.valid, refl, wanted)
          | inr other ↦
              rw (kept-other t (x, t') (next fuel t') no_comment other)
                (Finds-after t t' o _ (go_on t' o v forth))
        ])
      ]
    ]

-- `next` comes to an end, with fuel beyond the bytes that are left, if no token and no comment mark is
-- empty: its two loops find a later state from which one `nextPure` cuts off the lexeme that is
-- returned, which is no comment mark and, while skipping is on, nothing to skip.
pub next-Finds :
    (fuel : ℕ) (t : Tokenizer)
    → IsValid t
    → AreTokens t.tokens
    → one_of t.comments [] ≡ false
    → length t.content + 2 ≤ fuel + t.cursor
    → Finds t (next fuel t)
unfolding Continues
next-Finds zero t v ts nc h = absurd (omega (arith, h, v.within))
next-Finds (suc fuel) t v ts nc h =
    next-step fuel t record { valid = v; are_tokens = ts; enough = h } nc
      (λ t' o v' lt.
        next-Finds fuel t' v' (subst AreTokens (sym o.tokens_kept) ts)
          (subst (λ c. one_of c [] ≡ false) (sym o.comments_kept) nc)
          (omega (arith, ap length o.content_kept)))

pub next_pure-rewind : (t : Tokenizer) → (next_pure t).0 ≢ [] → rewind (next_pure t).1 ≡ some t
unfolding next_pure advance rewind
next_pure-rewind t some_lexeme = elim (Bool-cases (t.cursor == length t.content)) [
  | inl done ↦ absurd (some_lexeme (rw done refl))
  | inr more ↦ rw more refl
]

-- `rewind` after a `next` that found a lexeme, under the same conditions, goes back to the place from
-- which one `nextPure` cuts off this lexeme again and leads to the same state: comments and what was
-- skipped stay behind.
pub next-rewind :
    (fuel : ℕ) (t : Tokenizer)
    → IsValid t
    → AreTokens t.tokens
    → one_of t.comments [] ≡ false
    → length t.content + 2 ≤ fuel + t.cursor
    → (x : Text) (t' : Tokenizer) → next fuel t ≡ some (x, t')
    → x ≢ []
    → (t0 : Tokenizer) × (rewind t' ≡ some t0) × (next_pure t0 ≡ (x, t'))
next-rewind fuel t v ts nc h x t' e some_lexeme =
    let (t0, o, v0, e0, w) = subst (Finds t) e (next-Finds fuel t v ts nc h) in
    let same : (next_pure t0).1 ≡ t' = ap (λ (r : Text × Tokenizer). r.1) e0 in
    let not_empty = subst (λ (r : Text × Tokenizer). r.0 ≢ []) (sym e0) some_lexeme in
    (t0, subst (λ s. rewind s ≡ some t0) same (next_pure-rewind t0 not_empty), e0)
