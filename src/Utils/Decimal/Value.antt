-- ===== src/Utils/Decimal/Value.antt =====
-- The digits of a number, and what `atoi` reads from them.
use cgroup_monitor.Prelude.{
  ℕ, zero, suc, ◌+◌, ◌-◌, ◌*◌, ◌/◌, ◌%◌, ◌<◌, ◌≤◌, ◌≡◌, refl, ap, sym, ◌∙◌, inl, inr, true, false,
  [], ◌∷◌, ◌++◌, Text, All, ltb, ◌==◌, Bool-cases, arith, length,
}
use mathlib.Core.List.{append-nil, append_assoc}
use cgroup_monitor.Prelude.Words.{pos}
use cgroup_monitor.Utils.Decimal.{digits_before, decimal, digits_value, is_digit, is_blank, atoi}

digits_value-before :
    (fuel n : ℕ) (tail : Text)
    → n < fuel
    → digits_value 0 (digits_before fuel n tail) ≡ digits_value n tail
unfolding digits_value digits_before
digits_value-before zero n tail h = absurd (omega arith)
digits_value-before (suc fuel) n tail h = elim (Bool-cases (ltb n 10)) [
  | inl last ↦
      let digit : is_digit (48 + n) ≡ true = ground (arith, last) in
      let value : 0 * 10 + (48 + n - 48) ≡ n = omega arith in rw (last, digit, value) refl
  | inr more ↦
      let big : 10 ≤ n = ground (arith, more) in
      let digit : is_digit (48 + n % 10) ≡ true = ground arith in
      let value : n / 10 * 10 + (48 + n % 10 - 48) ≡ n = omega arith in
      rw (more) (
        digits_value-before fuel (n / 10) ((48 + n % 10) ∷ tail) (omega arith)
        ∙ (rw (digit, value) refl))
]

digits_before-append :
    (fuel n : ℕ) (tail : Text) → digits_before fuel n tail ≡ digits_before fuel n [] ++ tail
unfolding digits_before
digits_before-append zero n tail = refl
digits_before-append (suc fuel) n tail = elim (Bool-cases (ltb n 10)) [
  | inl last ↦ rw (last) refl
  | inr more ↦
      let d : ℕ = 48 + n % 10 in
      let front : Text = digits_before fuel (n / 10) [] in
      rw (more) (
        digits_before-append fuel (n / 10) (d ∷ tail)
        ∙ sym (
            ap (λ (l : Text). l ++ tail) (digits_before-append fuel (n / 10) (d ∷ []))
            ∙ append_assoc front (d ∷ []) tail))
]

abbrev pub AreDigits : Text → Type 0
AreDigits = All (λ c. is_digit c ≡ true)

digits_before-AreDigits :
    (fuel n : ℕ) (tail : Text) → n < fuel → AreDigits tail → AreDigits (digits_before fuel n tail)
unfolding digits_before
digits_before-AreDigits zero n tail h a = absurd (omega arith)
digits_before-AreDigits (suc fuel) n tail h a = elim (Bool-cases (ltb n 10)) [
  | inl last ↦ let digit : is_digit (48 + n) ≡ true = ground (arith, last) in rw (last) (digit, a)
  | inr more ↦
      let big : 10 ≤ n = ground (arith, more) in
      let digit : is_digit (48 + n % 10) ≡ true = ground arith in
      rw (more)
        (digits_before-AreDigits fuel (n / 10) ((48 + n % 10) ∷ tail) (omega arith) (digit, a))
]

length-digits_before :
    (fuel n : ℕ) (tail : Text)
    → n < fuel
    → (length tail < length (digits_before fuel n tail))
      × (length (digits_before fuel n tail) ≤ n + 1 + length tail)
unfolding digits_before
length-digits_before zero n tail h = absurd (omega arith)
length-digits_before (suc fuel) n tail h = elim (Bool-cases (ltb n 10)) [
  | inl last ↦ rw (last) (omega arith)
  | inr more ↦
      let big : 10 ≤ n = ground (arith, more) in
      let (lo, hi) = length-digits_before fuel (n / 10) ((48 + n % 10) ∷ tail) (omega arith) in
      rw (more) (omega arith)
]

pub decimal-AreDigits : (n : ℕ) → AreDigits (decimal n)
unfolding decimal
decimal-AreDigits n = digits_before-AreDigits (suc n) n [] (omega arith) tt

pub length-decimal : (n : ℕ) → (0 < length (decimal n)) × (length (decimal n) ≤ n + 1)
unfolding decimal
length-decimal n = omega (arith, length-digits_before (suc n) n [] (omega arith))

pub digits_value-decimal :
    (n : ℕ) (tail : Text) → digits_value 0 (decimal n ++ tail) ≡ digits_value n tail
unfolding decimal
digits_value-decimal n tail =
    ap (digits_value 0) (sym (digits_before-append (suc n) n tail))
    ∙ digits_value-before (suc n) n tail (omega arith)

atoi-digits :
    (w tail : Text)
    → AreDigits w
    → 0 < length w
    → atoi (w ++ tail) ≡ pos (digits_value 0 (w ++ tail))
unfolding atoi
atoi-digits [] tail a h = absurd (omega arith)
atoi-digits (c ∷ w) tail (d, a) h =
    let blank : is_blank c ≡ false = ground arith in
    let minus : (c == 45) ≡ false = ground arith in
    let plus : (c == 43) ≡ false = ground arith in rw (blank, minus, plus) refl

-- `atoi` reads the decimal digits of a number up to the end, or up to a line feed.
pub atoi-decimal : (n : ℕ) → (atoi (decimal n) ≡ pos n) × (atoi (decimal n ++ 10 ∷ []) ≡ pos n)
unfolding digits_value
atoi-decimal n =
    let (some_digit, _) = length-decimal n in
    let read = λ (tail : Text).
      (atoi-digits (decimal n) tail (decimal-AreDigits n) some_digit
        ∙ ap pos (digits_value-decimal n tail)) in
    (ap atoi (sym (append-nil (decimal n))) ∙ read [], read (10 ∷ []))
