-- ===== src/Utils/Decimal.antt =====
-- What the library of C and C++ does with decimal numbers, as src/monitor/net/addr.cc uses it:
-- `operator<<` of an integer, and `atoi` of a number that fits an `int`.
pub mod Value
use cgroup_monitor.Prelude.{
  ℕ, zero, suc, ◌+◌, ◌-◌, ◌*◌, ◌/◌, ◌%◌, Bool, ◌&&◌, ◌||◌, List, [], ◌∷◌, Text, ltb, leb, ◌==◌,
  if◌then◌else◌,
}
use cgroup_monitor.Prelude.Words.{ℤ, pos, negsuc}

-- The digits of n in front of a text, on fuel.
unfoldable pub digits_before : ℕ → ℕ → Text → Text
digits_before zero n tail = tail
digits_before (suc fuel) n tail =
    let more = digits_before fuel (n / 10) ((48 + n % 10) ∷ tail) in
    if ltb n 10 then (48 + n) ∷ tail else more

unfoldable pub decimal : ℕ → Text
unfolding digits_before
decimal n = digits_before (suc n) n []

abbrev pub is_digit : ℕ → Bool
is_digit c = leb 48 c && leb c 57

abbrev pub is_blank : ℕ → Bool
is_blank c = (c == 32) || (leb 9 c && leb c 13)

unfoldable pub digits_value : ℕ → Text → ℕ
digits_value n [] = n
digits_value n (c ∷ cs) =
    let more = digits_value (n * 10 + (c - 48)) cs in if is_digit c then more else n

abbrev pub negated : ℕ → ℤ
negated zero = pos 0
negated (suc n) = negsuc n

unfoldable pub atoi : Text → ℤ
unfolding digits_value
atoi [] = pos 0
atoi (c ∷ cs) =
    let rest = atoi cs in
    if is_blank c
    then rest
    else (if c == 45
        then negated (digits_value 0 cs)
        else (if c == 43 then pos (digits_value 0 cs) else pos (digits_value 0 (c ∷ cs))))
