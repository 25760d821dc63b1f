-- ===== src/Utils/Toml/Written.antt =====
-- A line that `dump` wrote is read back.
use cgroup_monitor.Prelude.{
  ℕ, suc, ◌<◌, ◌≤◌, ◌≡◌, refl, subst, Bool, true, false, ◌||◌, some, [], ◌∷◌, ◌++◌, Text, codes,
  All, All-weaken, ◌==◌, arith, length, length-append, text_eq,
}
use cgroup_monitor.Prelude.Words.{ℤ, pos, negsuc}
use cgroup_monitor.Floats.{Floats}
use cgroup_monitor.Utils.Decimal.{decimal, is_digit}
use cgroup_monitor.Utils.Decimal.Value.{decimal-AreDigits, length-decimal}
use cgroup_monitor.Utils.Tokenizer.{Tokenizer, one_of, skip}
use cgroup_monitor.Utils.Tokenizer.Separators.{Lacks, find-none}
use cgroup_monitor.Utils.Config.{Value, long, float, str, bool, arr, dic, to_int}
use cgroup_monitor.Utils.Dump.{show_int}
use cgroup_monitor.Utils.Toml.{
  Numbers, done, parse_int, parse_string, string_loop, whole, quote, start_of, parse_value,
}
use cgroup_monitor.Utils.Toml.Lexed.{Left, IsWord, IsPlain, IsBlank}
use cgroup_monitor.Utils.Toml.Tokens.{token-word, token-mark}
use cgroup_monitor.Utils.Toml.Quoted.{IsQuotable, string_loop-quoted}

-- The text of an integer: no mark, no point, and no letter of a truth value.
IsNumeral : Text → Type 0
IsNumeral w = IsWord w × Lacks w 46 × Lacks w 102 × Lacks w 116

abbrev IsSign : ℕ → Type 0
IsSign c = (is_digit c || (c == 45)) ≡ true

Lacks-signs : (w : Text) (x : ℕ) → All IsSign w → (is_digit x || (x == 45)) ≡ false → Lacks w x
Lacks-signs w x a n = All-weaken _ _ (λ c d. ground (arith, d, n)) w a

signs-IsNumeral : (w : Text) → All IsSign w → 0 < length w → IsNumeral w
unfolding IsNumeral
signs-IsNumeral w a p =
    let l = λ (x : ℕ) (n : (is_digit x || (x == 45)) ≡ false). Lacks-signs w x a n in
    (
      (
        (
          l 91 refl,
          (
            l 93 refl,
            (
              l 123 refl,
              (
                l 125 refl,
                (
                  l 61 refl,
                  (
                    l 44 refl,
                    (
                      l 39 refl,
                      (
                        l 34 refl,
                        (l 32 refl, (l 10 refl, (l 9 refl, (l 13 refl, (l 35 refl, tt))))),
                      ),
                    ),
                  ),
                ),
              ),
            ),
          ),
        ),
        p,
      ),
      l 46 refl,
      l 102 refl,
      l 116 refl,
    )

decimal-signs : (n : ℕ) → All IsSign (decimal n)
decimal-signs n = All-weaken _ _ (λ c d. ground (arith, d)) (decimal n) (decimal-AreDigits n)

show_int-IsNumeral : (n : ℤ) → IsNumeral (show_int n)
unfolding show_int
show_int-IsNumeral (pos n) = signs-IsNumeral (decimal n) (decimal-signs n) (length-decimal n).0
show_int-IsNumeral (negsuc n) =
    signs-IsNumeral (45 ∷ decimal (suc n)) (refl, decimal-signs (suc n)) (omega arith)

pub Lacks-apart : (w : Text) (x : ℕ) (ys : Text) → Lacks w x → text_eq w (x ∷ ys) ≡ false
unfolding text_eq
Lacks-apart [] x ys l = refl
Lacks-apart (c ∷ w) x ys (l, ls) = ground (arith, l)

start_of-numeral : (w : Text) → IsNumeral w → start_of w ≡ whole
unfolding start_of IsNumeral
start_of-numeral w
      (((l91, (l93, (l123, (l125, (l61, (l44, (l39, (l34, ls)))))))), p), point, f, t) =
    rw
      (
        Lacks-apart w 123 [] l123,
        Lacks-apart w 91 [] l91,
        Lacks-apart w 39 [] l39,
        Lacks-apart w 34 [] l34,
        Lacks-apart w 102 (codes "alse") f,
        Lacks-apart w 116 (codes "rue") t,
        find-none w 46 point,
      )
      refl

skip-Left : (b c : Bool) (t : Tokenizer) (rest : Text) → Left b t rest → Left c (skip c t) rest
unfolding skip
skip-Left b c t rest r = record {
  separators = r.separators;
  skipping = r.skipping;
  commenting = r.commenting;
  skips_now = refl;
  left = r.left;
  place = r.place;
  short = r.short;
}

pub newline-IsBlank : IsBlank 32 × IsBlank 10
unfolding one_of text_eq
newline-IsBlank = ((refl, refl, refl), (refl, refl, refl))

pub equals-IsPlain :
    IsPlain true (34 ∷ [])
    × IsPlain true (61 ∷ [])
    × IsPlain true (91 ∷ [])
    × IsPlain true (93 ∷ [])
unfolding one_of text_eq
equals-IsPlain = ((refl, refl), (refl, refl), (refl, refl), (refl, refl))

start_of-quote : start_of (34 ∷ []) ≡ quote (34 ∷ [])
unfolding start_of text_eq
start_of-quote = refl

parse_string-done :
    (fuel : ℕ) (mark s : Text) (t t' : Tokenizer)
    → string_loop fuel mark [] (skip false t) ≡ done s t'
    → parse_string fuel mark t ≡ done s (skip true t')
unfolding parse_string
parse_string-done fuel mark s t t' e = rw e refl

-- What is written of a value, up to the end of its line.
abbrev pub written : {F : Floats} → Value F → Text → Text
written (long n) more = show_int (to_int n) ++ 10 ∷ more
written (str s) more = 34 ∷ (s ++ 34 ∷ 10 ∷ more)
written other more = []

-- The values that are written so that they can be read: an `int`, and a text that quotes can hold.
abbrev pub IsWritable : {F : Floats} → Value F → Type 0
IsWritable (long n) = to_int n ≡ n
IsWritable (float x) = ⊥
IsWritable (str s) = IsQuotable s
IsWritable (bool b) = ⊥
IsWritable (arr a) = ⊥
IsWritable (dic d) = ⊥

module _ {F : Floats} (N : Numbers F) where
  -- `std::stoi` reads what a stream writes of an `int`.
  abbrev pub ReadsBack : Type 0
  ReadsBack = (n : ℤ) → to_int n ≡ n → N.stoi (show_int n) ≡ some n

  parse_int-numeral :
      (t : Tokenizer) (n : ℤ) (more : Text)
      → N.stoi (show_int n) ≡ some n
      → Left true t (show_int n ++ 10 ∷ more)
      → (t' : Tokenizer) × (parse_int N t ≡ done (long n) t') × Left true t' (10 ∷ more)
  unfolding parse_int IsNumeral
  parse_int-numeral t n more s r =
      let k = token-word t [] (show_int n) 10 more r tt (show_int-IsNumeral n).0 refl in
      (k.behind, rw (k.reads, s) refl, k.after)

  -- A value behind the equals sign.
  pub value-written :
      (fuel : ℕ) (v : Value F) (t : Tokenizer) (more : Text)
      → ReadsBack
      → IsWritable v
      → length (written v more) ≤ fuel
      → Left true t (32 ∷ written v more)
      → (t' : Tokenizer) × (parse_value N (suc fuel) t ≡ done v t') × Left true t' (10 ∷ more)
  unfolding parse_value IsNumeral
  value-written fuel (long n) t more reads w h r =
      let r' = subst (λ m. Left true t (32 ∷ (show_int m ++ 10 ∷ more))) w r in
      let k =
        token-word t (32 ∷ []) (show_int n) 10 more r' (newline-IsBlank.0, tt)
          (show_int-IsNumeral n).0 refl in
      let (t', e, l) = parse_int-numeral k.at n more (reads n w) k.before in
      (t', rw (k.reads, start_of-numeral (show_int n) (show_int-IsNumeral n), k.returns, e) refl, l)
  value-written fuel (float x) t more reads w h r = absurd w
  value-written fuel (str s) t more reads w h r =
      let k =
        token-mark t (32 ∷ []) 34 (s ++ 34 ∷ 10 ∷ more) r (newline-IsBlank.0, tt) refl
          equals-IsPlain.0 in
      let (t', e, l) =
        string_loop-quoted fuel s (10 ∷ more) [] (skip false k.behind)
          (omega (arith, h, length-append s (34 ∷ 10 ∷ more))) w
          (skip-Left true false k.behind _ k.after) in
      (
        skip true t',
        rw (k.reads, start_of-quote, parse_string-done fuel (34 ∷ []) s k.behind t' e) refl,
        skip-Left false true t' _ l,
      )
  value-written fuel (bool b) t more reads w h r = absurd w
  value-written fuel (arr a) t more reads w h r = absurd w
  value-written fuel (dic d) t more reads w h r = absurd w
