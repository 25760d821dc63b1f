-- ===== src/Utils/Range.antt =====
-- src/monitor/utils/range.{hh,cc}: ranges of `long` and their iterators, and the `for` loop over one.
-- A `long` is given by its bit pattern.
pub mod Elements
use cgroup_monitor.Prelude.{
  ℕ, zero, suc, ◌+◌, ◌-◌, ◌%◌, Bool, not, Option, none, some, List, [], ◌∷◌, ltb, ◌==◌,
  if◌then◌else◌,
}
use cgroup_monitor.Prelude.Words.{word, half_word, add64}

pub record RIterator : Type 0 where
  pub curr : ℕ
  pub pad : ℕ

pub record Range : Type 0 where
  pub beg : ℕ
  pub end : ℕ

-- `a > b` on `long`.
abbrev pub is_greater : ℕ → ℕ → Bool
is_greater a b = ltb ((b + half_word) % word) ((a + half_word) % word)

unfoldable pub advance_iterator : RIterator → RIterator
advance_iterator it = record it { curr = add64 it.curr it.pad }

unfoldable pub differs : RIterator → RIterator → Bool
differs it ot = not (ot.curr == it.curr)

unfoldable pub range_begin : Range → RIterator
range_begin r =
    if is_greater r.beg r.end
    then record { curr = r.beg; pad = word - 1 }
    else record { curr = r.beg; pad = 1 }

unfoldable pub range_end : Range → RIterator
range_end r = record { curr = r.end; pad = 1 }

abbrev pub cons_to : ℕ → Option (List ℕ) → Option (List ℕ)
cons_to x none = none
cons_to x (some xs) = some (x ∷ xs)

-- The values of the loop from an iterator, on fuel.
unfoldable pub visits : ℕ → RIterator → RIterator → Option (List ℕ)
unfolding differs advance_iterator
visits zero it end = none
visits (suc fuel) it end =
    let rest = visits fuel (advance_iterator it) end in
    if differs it end then cons_to it.curr rest else some []

unfoldable pub elements : ℕ → Range → Option (List ℕ)
unfolding visits range_begin range_end
elements fuel r = visits fuel (range_begin r) (range_end r)
