-- ===== src/Prelude/Texts.antt =====
-- The order of texts.
use mathlib.Core.Path.{◌≡◌, refl, ap}
use mathlib.Core.Logic.{inl, inr}
use mathlib.Core.Bool.{true, false}
use mathlib.Core.List.{[], ◌∷◌}
use native.Mathlib.Omega.{arith}
use cgroup_monitor.Prelude.Tests.{Text, text_less, text_eq, text_eq_iff, Bool-cases}

pub text_less_irrefl : (s : Text) → text_less s s ≡ false
unfolding text_less
text_less_irrefl [] = refl
text_less_irrefl (x ∷ s) = ground (arith, text_less_irrefl s)

pub text_less_trans :
    (r s t : Text) → text_less r s ≡ true → text_less s t ≡ true → text_less r t ≡ true
unfolding text_less
text_less_trans r [] t a b = cc
text_less_trans r (y ∷ s) [] a b = cc
text_less_trans [] (y ∷ s) (z ∷ t) a b = refl
text_less_trans (x ∷ r) (y ∷ s) (z ∷ t) a b = ground (arith, text_less_trans r s t)

pub text_less-total :
    (s t : Text) → text_less s t ≡ false → text_eq s t ≡ false → text_less t s ≡ true
unfolding text_less text_eq
text_less-total [] [] a b = cc
text_less-total [] (y ∷ t) a b = cc
text_less-total (x ∷ s) [] a b = refl
text_less-total (x ∷ s) (y ∷ t) a b = ground (arith, text_less-total s t)

pub text_less-apart : (s t : Text) → text_less s t ≡ true → text_eq t s ≡ false
text_less-apart s t l = elim (Bool-cases (text_eq t s)) [
  | inl same ↦
      let back : text_less s t ≡ text_less s s = ap (text_less s) ((text_eq_iff t s).0 same) in
      absurd (ground (arith, l, back, text_less_irrefl s))
  | inr other ↦ other
]

pub text_less_asym : (s t : Text) → text_less s t ≡ true → text_less t s ≡ false
text_less_asym s t l = elim (Bool-cases (text_less t s)) [
  | inl back ↦ absurd (ground (arith, text_less_trans s t s l back, text_less_irrefl s))
  | inr not_back ↦ not_back
]
