-- ===== src/Tests/Tokens.antt =====
-- A tokenizer at concrete texts.
use cgroup_monitor.Prelude.{ℕ, ◌≡◌, ◌≤◌, refl, false, some, [], ◌∷◌, codes, text_eq, arith}
use cgroup_monitor.Utils.Tokenizer.{
  Tokenizer, new_tokenizer, is_prefix, find, scan, width, advance, next_pure, skip_comment, next,
  rewind, one_of,
}
use cgroup_monitor.Utils.Tokenizer.Lexeme.{IsValid, AreTokens}
use cgroup_monitor.Utils.Tokenizer.Next.{Finds, next-Finds, next-rewind}

abbrev line : Tokenizer
line =
    new_tokenizer (codes "a== b#c")
      (codes "=" ∷ codes "==" ∷ codes " " ∷ codes "#" ∷ codes "\n" ∷ [])
      (codes " " ∷ codes "\n" ∷ []) (codes "#" ∷ [])

abbrev at : ℕ → Tokenizer
at n = record line { cursor = n }

line-IsValid : (n : ℕ) → n ≤ 8 → IsValid (at n)
unfolding new_tokenizer
line-IsValid n h = record { within = omega arith; short = omega arith }

line-AreTokens : AreTokens line.tokens
unfolding new_tokenizer
line-AreTokens = omega arith

first : (next_pure line).0 ≡ codes "a"
unfolding next_pure advance width scan find is_prefix new_tokenizer
first = refl

no_mark : one_of line.comments [] ≡ false
unfolding new_tokenizer one_of text_eq
no_mark = refl

-- A comment stands behind the sixth byte.
next-Finds_example : Finds (at 5) (next 5 (at 5))
unfolding new_tokenizer
next-Finds_example =
    next-Finds 5 (at 5) (line-IsValid 5 (omega arith)) line-AreTokens no_mark (omega arith)

abbrev behind : Tokenizer
behind = record line { cursor = 5; last_locs = 4 ∷ 3 ∷ [] }

finds : next 7 (at 3) ≡ some (codes "b", behind)
unfolding next one_of text_eq next_pure advance width scan find is_prefix new_tokenizer skip_comment
finds = refl

next-rewind_example :
    (t0 : Tokenizer) × (rewind behind ≡ some t0) × (next_pure t0 ≡ (codes "b", behind))
unfolding new_tokenizer
next-rewind_example =
    next-rewind 7 (at 3) (line-IsValid 3 (omega arith)) line-AreTokens no_mark (omega arith)
      (codes "b") behind finds (λ e. cc)
