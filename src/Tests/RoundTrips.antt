-- ===== src/Tests/RoundTrips.antt =====
-- A configuration that is written and read back.
use mathlib.Core.List.{append-nil}
use cgroup_monitor.Prelude.{
  Bool, true, false, ◌&&◌, ltb, ◌<◌, All, All-weaken, ℕ, suc, ◌≡◌, refl, ap, sym, ◌∙◌, some, [],
  Text, codes, text_less, length, arith,
}
use cgroup_monitor.Prelude.Words.{ℤ, pos, negsuc}
use cgroup_monitor.Floats.{fixed, Fixed, plus}
use cgroup_monitor.Utils.Decimal.{decimal, digits_before, digits_value, negated, atoi}
use cgroup_monitor.Utils.Decimal.Value.{atoi-decimal, digits_value-decimal}
use cgroup_monitor.Utils.Tokenizer.{Tokenizer}
use cgroup_monitor.Utils.Config.{long, str, dic, Dict, entries_end, entry, to_int}
use cgroup_monitor.Utils.Dump.{show_int}
use cgroup_monitor.Utils.Dump.Toml.{dump, dump_value}
use cgroup_monitor.Utils.Toml.{Numbers, done, parse}
use cgroup_monitor.Utils.Tokenizer.Separators.{Lacks}
use cgroup_monitor.Utils.Toml.Ends.{mark_bytes}
use cgroup_monitor.Utils.Toml.Lexed.{IsWord}
use cgroup_monitor.Utils.Toml.Layout.{AreSections}
use cgroup_monitor.Utils.Toml.Sections.{parse-dump}

abbrev by_atoi : Numbers fixed
by_atoi = record { stoi = λ x. some (atoi x); stof = λ x. some (plus 0) }

reads_back : (n : ℤ) → to_int n ≡ n → by_atoi.stoi (show_int n) ≡ some n
unfolding show_int atoi digits_value
reads_back (pos n) e = ap (λ (m : ℤ). some m) (atoi-decimal n).0
reads_back (negsuc n) e =
    ap (λ (m : ℕ). some (negated m))
      (ap (digits_value 0) (sym (append-nil (decimal (suc n)))) ∙ digits_value-decimal (suc n) [])

abbrev float_text : Fixed → Text
float_text x = codes "x"

abbrev machines : Dict fixed
machines =
    entry (codes "vm")
      (dic (
        entry (codes "image") (str (codes "my os.img")) (
          entry (codes "memory") (long (pos 2_048))
            (entry (codes "offset") (long (negsuc 6)) entries_end))))
      entries_end

abbrev is_letter : ℕ → Bool
is_letter c = ltb 96 c && ltb c 123

IsLetter : ℕ → Type 0
IsLetter c = is_letter c ≡ true

Lacks-letters : (w : Text) (x : ℕ) → All IsLetter w → is_letter x ≡ false → Lacks w x
unfolding IsLetter
Lacks-letters w x a n = All-weaken _ _ (λ c d. ground (arith, d, n)) w a

letters-IsWord : (w : Text) → All IsLetter w → 0 < length w → IsWord w
letters-IsWord w a p =
    let l = λ (x : ℕ) (n : is_letter x ≡ false). Lacks-letters w x a n in
    (
      All-weaken _ _ l mark_bytes (
        refl,
        (
          refl,
          (
            refl,
            (refl, (refl, (refl, (refl, (refl, (refl, (refl, (refl, (refl, (refl, tt)))))))))),
          ),
        ),
      ),
      p,
    )

machines-AreSections : AreSections machines
unfolding text_less IsLetter to_int
machines-AreSections = (
  letters-IsWord (codes "vm") (refl, (refl, tt)) (omega arith),
  (
    letters-IsWord (codes "image") (refl, (refl, (refl, (refl, (refl, tt))))) (omega arith),
    (
      (refl, refl),
      (
        (refl, refl),
        (
          (refl, refl),
          (
            (refl, refl),
            ((refl, refl), ((refl, refl), ((refl, refl), ((refl, refl), ((refl, refl), tt))))),
          ),
        ),
      ),
    ),
    (
      letters-IsWord (codes "memory") (refl, (refl, (refl, (refl, (refl, (refl, tt))))))
          (omega arith),
      refl,
      (
        letters-IsWord (codes "offset") (refl, (refl, (refl, (refl, (refl, (refl, tt))))))
            (omega arith),
        refl,
        tt,
      ),
    ),
  ),
  ((refl, (refl, tt)), ((refl, tt), (tt, tt))),
  tt,
)

parse-dump_example :
    (t : Tokenizer) × (parse by_atoi 100 (dump float_text machines) ≡ done machines t)
unfolding dump dump_value show_int decimal digits_before to_int
parse-dump_example =
    parse-dump by_atoi float_text 100 machines reads_back machines-AreSections (tt, tt)
      (omega arith) (omega arith)
