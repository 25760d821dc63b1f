-- ===== src/Utils/Range/Elements.antt =====
-- The values that a loop over a range visits.
use cgroup_monitor.Prelude.{
  ℕ, zero, suc, ◌+◌, ◌-◌, ◌<◌, ◌≤◌, ◌≡◌, refl, inl, inr, true, false, some, List, [], ◌∷◌, leb,
  ◌==◌, if◌then◌else◌, arith, Bool-cases,
}
use cgroup_monitor.Prelude.Words.{word, half_word, add64}
use cgroup_monitor.Utils.Range.{visits, elements, is_greater}

-- n numbers from b upwards, and from b downwards.
unfoldable pub upward : ℕ → ℕ → List ℕ
upward zero b = []
upward (suc n) b = b ∷ upward n (b + 1)

unfoldable pub downward : ℕ → ℕ → List ℕ
downward zero b = []
downward (suc n) b = b ∷ downward n (b - 1)

visits-upward :
    (fuel n b e : ℕ)
    → n < fuel
    → e ≡ b + n
    → e < half_word
    → visits fuel (record { curr = b; pad = 1 }) (record { curr = e; pad = 1 }) ≡ some (upward n b)
unfolding visits upward
visits-upward zero n b e h eq s = absurd (omega arith)
visits-upward (suc fuel) zero b e h eq s = ground arith
visits-upward (suc fuel) (suc n) b e h eq s =
    let next : add64 b 1 ≡ b + 1 = omega arith in
    let more : (e == b) ≡ false = ground arith in
    rw (more, next) (rw (visits-upward fuel n (b + 1) e (omega arith) (omega arith) s) refl)

visits-downward :
    (fuel n b e : ℕ)
    → n < fuel
    → b ≡ e + n
    → b < half_word
    → visits fuel (record { curr = b; pad = word - 1 }) (record { curr = e; pad = 1 })
      ≡ some (downward n b)
unfolding visits downward
visits-downward zero n b e h eq s = absurd (omega arith)
visits-downward (suc fuel) zero b e h eq s = ground arith
visits-downward (suc fuel) (suc n) b e h eq s =
    let next : add64 b (word - 1) ≡ b - 1 = omega arith in
    let more : (e == b) ≡ false = ground arith in
    rw (more, next)
      (rw (visits-downward fuel n (b - 1) e (omega arith) (omega arith) (omega arith)) refl)

-- A loop over the range of two numbers below 2 ^ 63 ends, with fuel beyond their distance. It visits the
-- numbers from the first up to the second, or down to it, with the first and without the second.
pub elements_lem :
    (fuel b e : ℕ)
    → b < half_word
    → e < half_word
    → (e - b) + (b - e) < fuel
    → elements fuel (record { beg = b; end = e })
      ≡ some (if leb b e then upward (e - b) b else downward (b - e) b)
unfolding elements
elements_lem fuel b e hb he f = elim (Bool-cases (leb b e)) [
  | inl up ↦
      let le : b ≤ e = ground arith in
      let not_down : is_greater b e ≡ false = ground arith in
      rw (up, not_down) (visits-upward fuel (e - b) b e (omega arith) (omega arith) he)
  | inr down ↦
      let lt : e < b = ground arith in
      let is_down : is_greater b e ≡ true = ground arith in
      rw (down, is_down) (visits-downward fuel (b - e) b e (omega arith) (omega arith) hb)
]
