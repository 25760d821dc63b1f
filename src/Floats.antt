-- ===== src/Floats.antt =====
-- The arithmetic of `float` and `double`, which the compiler and the processor supply: a parameter
-- of the model. The one law says that a conversion to `unsigned long` gives an `unsigned long`.
use cgroup_monitor.Prelude.{
  ℕ, ◌+◌, ◌-◌, ◌*◌, ◌/◌, ◌%◌, ◌<◌, Bool, false, arith, ltb, leb, ◌==◌, if◌then◌else◌,
}
use cgroup_monitor.Prelude.Words.{ℤ, pos, negsuc, word}

pub record Floats : Type 1 where
  pub Float : Type 0
  pub Double : Type 0
  -- The literals n / d of the source, and those with a minus sign.
  pub float_lit : ℕ → ℕ → Float
  pub double_lit : ℕ → ℕ → Double
  pub float_neg : Float → Float
  -- Conversions.
  pub float_of : ℕ → Float
  pub float_of_int : ℤ → Float
  pub double_of : ℕ → Double
  pub widen : Float → Double
  pub narrow : Double → Float
  pub to_ulong : Float → ℕ
  pub to_long : Float → ℤ
  pub double_to_ulong : Double → ℕ
  -- Operators.
  pub fadd : Float → Float → Float
  pub fmul : Float → Float → Float
  pub fdiv : Float → Float → Float
  pub flt : Float → Float → Bool
  pub dadd : Double → Double → Double
  pub dsub : Double → Double → Double
  pub dmul : Double → Double → Double
  pub ddiv : Double → Double → Double
  pub dlt : Double → Double → Bool
  pub to_ulong_lt : (x : Float) → to_ulong x < word
  pub double_to_ulong_lt : (x : Double) → double_to_ulong x < word

-- An instance for tests: millionths with a sign. It is no model of IEEE 754.
pub data Fixed : Type 0 where
  plus minus : ℕ → Fixed

abbrev scale : ℕ
scale = 1_000_000

abbrev negate : Fixed → Fixed
negate (plus a) = minus a
negate (minus a) = plus a

abbrev difference : ℕ → ℕ → Fixed
difference a b = if leb b a then plus (a - b) else minus (b - a)

abbrev sum_of : Fixed → Fixed → Fixed
sum_of (plus a) (plus b) = plus (a + b)
sum_of (plus a) (minus b) = difference a b
sum_of (minus a) (plus b) = difference b a
sum_of (minus a) (minus b) = minus (a + b)

abbrev signed : (ℕ → ℕ → ℕ) → Fixed → Fixed → Fixed
signed f (plus a) (plus b) = plus (f a b)
signed f (plus a) (minus b) = minus (f a b)
signed f (minus a) (plus b) = minus (f a b)
signed f (minus a) (minus b) = plus (f a b)

abbrev below : Fixed → Fixed → Bool
below (plus a) (plus b) = ltb a b
below (plus a) (minus b) = false
below (minus a) (plus b) = ltb 0 (a + b)
below (minus a) (minus b) = ltb b a

abbrev whole : Fixed → ℕ
whole (plus a) = a / scale % word
whole (minus a) = 0

abbrev truncated : Fixed → ℤ
truncated (plus a) = pos (a / scale)
truncated (minus a) = if a / scale == 0 then pos 0 else negsuc (a / scale - 1)

abbrev of_int : ℤ → Fixed
of_int (pos n) = plus (n * scale)
of_int (negsuc n) = minus ((n + 1) * scale)

pub whole-lt : (x : Fixed) → whole x < word
whole-lt (plus a) = omega arith
whole-lt (minus a) = omega arith

abbrev pub fixed : Floats
fixed = record {
  Float = Fixed;
  Double = Fixed;
  float_lit = λ n d. plus (n * scale / d);
  double_lit = λ n d. plus (n * scale / d);
  float_neg = negate;
  float_of = λ n. plus (n * scale);
  float_of_int = of_int;
  double_of = λ n. plus (n * scale);
  widen = λ x. x;
  narrow = λ x. x;
  to_ulong = whole;
  to_long = truncated;
  double_to_ulong = whole;
  fadd = sum_of;
  fmul = signed (λ a b. a * b / scale);
  fdiv = signed (λ a b. a * scale / b);
  flt = below;
  dadd = sum_of;
  dsub = λ a b. sum_of a (negate b);
  dmul = signed (λ a b. a * b / scale);
  ddiv = signed (λ a b. a * scale / b);
  dlt = below;
  to_ulong_lt = whole-lt;
  double_to_ulong_lt = whole-lt;
}
