-- ===== src/Utils/Tokenizer.antt =====
-- src/monitor/utils/tokenizer.{hh,cc}: cutting a text into tokens. Texts are shorter than 2 ^ 31
-- bytes, so the cursor, an `int`, does not overflow.
pub mod Lexeme
pub mod Longest
pub mod Next
pub mod Separators
pub mod Separated
pub mod Last
pub mod Ready
use cgroup_monitor.Prelude.{
  ℕ, zero, suc, ◌+◌, ◌-◌, Bool, true, false, not, ◌&&◌, ◌||◌, Option, none, some, List, [], ◌∷◌,
  ◌++◌, Text, codes, text_eq, ltb, ◌==◌, if◌then◌else◌, length, take, drop, min,
}
use cgroup_monitor.Prelude.Words.{word, sub64}

pub record Tokenizer : Type 0 where
  pub content : Text
  pub tokens : List Text
  pub skips : List Text
  pub comments : List Text
  -- The latest location first.
  pub last_locs : List ℕ
  pub cursor : ℕ
  pub do_skip : Bool

unfoldable pub new_tokenizer : Text → (tokens skips comments : List Text) → Tokenizer
new_tokenizer content tokens skips comments = record {
  content = content ++ 10 ∷ [];
  tokens = tokens;
  skips = skips;
  comments = comments;
  last_locs = [];
  cursor = 0;
  do_skip = true;
}

-- What the source uses of `std::string` and `std::find`.
unfoldable pub is_prefix : Text → Text → Bool
is_prefix [] ys = true
is_prefix (x ∷ xs) [] = false
is_prefix (x ∷ xs) (y ∷ ys) = (x == y) && is_prefix xs ys

abbrev pub later : Option ℕ → Option ℕ
later none = none
later (some i) = some (suc i)

-- The first position at which the pattern stands.
unfoldable pub find : Text → Text → Option ℕ
find p [] = if is_prefix p [] then some 0 else none
find p (c ∷ cs) = let rest = find p cs in if is_prefix p (c ∷ cs) then some 0 else later rest

unfoldable pub one_of : List Text → Text → Bool
one_of [] x = false
one_of (t ∷ ts) x = text_eq t x || one_of ts x

abbrev pub npos : ℕ
npos = word - 1

-- `find (it, cursor) - cursor` on `unsigned long`.
abbrev pub offset : Option ℕ → ℕ → ℕ
offset none cursor = sub64 npos cursor
offset (some i) cursor = i

-- What one token of some length at the offset `id` changes: a longer one at the same place, or a
-- nearer one, is better.
abbrev pub consider : (id len best beg : ℕ) → ℕ × ℕ
consider id len best beg =
    if id == npos
    then (best, beg)
    else (if (id == beg) && ltb best len
        then (len, beg)
        else (if ltb id beg then (len, id) else (best, beg)))

-- The loop over the tokens: the length of the best token and its offset from the cursor.
unfoldable pub scan : (rest : Text) (cursor : ℕ) → List Text → (best beg : ℕ) → ℕ × ℕ
scan rest cursor [] best beg = (best, beg)
scan rest cursor (it ∷ its) best beg =
    let (best', beg') = consider (offset (find it rest) cursor) (length it) best beg in
    scan rest cursor its best' beg'

-- How many bytes `nextPure` cuts off: all of the rest, the token, or what stands before the token.
abbrev pub cut : (n : ℕ) → ℕ × ℕ → ℕ
cut n (best, beg) = if beg == n then n else (if beg == 0 then best else beg)

abbrev pub rest_of : Tokenizer → Text
rest_of t = drop t.cursor t.content

unfoldable pub width : Tokenizer → ℕ
unfolding scan
width t = cut (length (rest_of t)) (scan (rest_of t) t.cursor t.tokens 0 (length (rest_of t)))

-- The lexeme of a width, and the tokenizer behind it.
unfoldable pub advance : ℕ → Tokenizer → Text × Tokenizer
advance n t = (
  take (min n (length (rest_of t))) (rest_of t),
  record t { last_locs = t.cursor ∷ t.last_locs; cursor = t.cursor + n },
)

unfoldable pub next_pure : Tokenizer → Text × Tokenizer
next_pure t = if t.cursor == length t.content then ([], t) else advance (width t) t

-- The inner loop of `next`, to the end of a comment, on fuel; `none` says that it ran out.
unfoldable pub skip_comment : ℕ → Text → Tokenizer → Option Tokenizer
skip_comment zero x t = none
skip_comment (suc fuel) x t =
    let rest = (let (y, t') = next_pure t in skip_comment fuel y t') in
    if text_eq x (codes "\n") || text_eq x [] then some t else rest

-- `next`, on fuel for its two loops; each inner loop has as much as is left.
unfoldable pub next : ℕ → Tokenizer → Option (Text × Tokenizer)
next zero t = none
next (suc fuel) t =
    let (x, t') = next_pure t in
    let comment : Option (Text × Tokenizer) = (elim (skip_comment fuel x t') [
      | none ↦ none
      | some t'' ↦ next fuel t''
    ]) in
    let again = next fuel t' in
    if one_of t.comments x
    then comment
    else (if text_eq x []
        then some (x, t')
        else (if not t.do_skip || not (one_of t.skips x) then some (x, t') else again))

abbrev pub pop_loc : List ℕ → Option (ℕ × List ℕ)
pop_loc [] = none
pop_loc (l ∷ ls) = some (l, ls)

-- `none` is `back` of an empty list.
unfoldable pub rewind : Tokenizer → Option Tokenizer
rewind t = elim (pop_loc t.last_locs) [
  | none ↦ none
  | some (l, ls) ↦ some (record t { cursor = l; last_locs = ls })
]

unfoldable pub skip : Bool → Tokenizer → Tokenizer
skip enable t = record t { do_skip = enable }

unfoldable pub count_lines : Text → ℕ
count_lines [] = 0
count_lines (c ∷ cs) = (if c == 10 then 1 else 0) + count_lines cs

unfoldable pub line_number : Tokenizer → ℕ
unfolding count_lines
line_number t = 1 + count_lines (take (min (length t.content) (sub64 t.cursor 1)) t.content)
