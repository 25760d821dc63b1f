-- ===== src/Net/Addr/Printed.antt =====
-- A socket address printed and read back.
use cgroup_monitor.Prelude.{
  ℕ, suc, ◌+◌, ◌^◌, ◌%◌, ◌<◌, ◌≤◌, ◌≡◌, refl, ap, subst, ◌∙◌, true, false, List, [], ◌∷◌, ◌++◌,
  Text, codes, text_eq, All, All-weaken, ◌==◌, arith, length, length-append,
}
use mathlib.Core.List.{append_assoc, append-nil}
use cgroup_monitor.Prelude.Words.{ℤ, pos}
use cgroup_monitor.Net.Addr.{
  SockAddr, ipv4, print_ip, print_addr, Parsing, reads, malformed, stops, number, expect, ◌>>=◌,
  made, parse_tokens, parse_addr, separators, number_of, expected_of,
}
use cgroup_monitor.Net.Addr.Packed.{AreBytes}
use cgroup_monitor.Utils.Decimal.{decimal, is_digit}
use cgroup_monitor.Utils.Decimal.Value.{AreDigits, decimal-AreDigits, length-decimal, atoi-decimal}
use cgroup_monitor.Utils.Tokenizer.{Tokenizer, new_tokenizer}
use cgroup_monitor.Utils.Tokenizer.Separators.{mem, Lacks}
use cgroup_monitor.Utils.Tokenizer.Separated.{Reads, next-word, next-separator, next-last}

abbrev seps : List ℕ
seps = 46 ∷ 58 ∷ 32 ∷ []

Lacks-digits : (w : Text) (x : ℕ) → AreDigits w → is_digit x ≡ false → Lacks w x
Lacks-digits w x a n = All-weaken _ _ (λ c d. ground arith) w a

digits-All : (w : Text) → AreDigits w → All (Lacks w) seps
digits-All w a =
    (Lacks-digits w 46 a refl, (Lacks-digits w 58 a refl, (Lacks-digits w 32 a refl, tt)))

-- Digits are not a blank.
not_blank : (w tail : Text) → AreDigits w → 0 < length w → text_eq (32 ∷ []) (w ++ tail) ≡ false
unfolding text_eq
not_blank [] tail a h = absurd (omega arith)
not_blank (c ∷ w) tail (d, a) h = ground arith

-- One number, and one separator, of a text that was printed.
number-decimal :
    (fuel n sep : ℕ) (t : Tokenizer) (more : Text)
    → Reads seps t (decimal n ++ sep ∷ more)
    → mem sep seps ≡ true
    → (t' : Tokenizer) × (number (suc fuel) t ≡ reads (pos n) t') × Reads seps t' (sep ∷ more)
unfolding number
number-decimal fuel n sep t more r m =
    let a = decimal-AreDigits n in
    let h = (length-decimal n).0 in
    let blank : text_eq (32 ∷ []) (decimal n) ≡ false =
      subst (λ (w : Text). text_eq (32 ∷ []) w ≡ false) (append-nil (decimal n))
        (not_blank (decimal n) [] a h) in
    let (t', e, r') =
      next-word seps fuel t (decimal n) sep more r (digits-All (decimal n) a) m h blank in
    (t', ap number_of e ∙ ap (λ i. reads i t') (atoi-decimal n).0, r')

expect-separator :
    (fuel sep : ℕ) (t : Tokenizer) (more : Text)
    → Reads seps t (sep ∷ more)
    → mem sep seps ≡ true
    → (32 == sep) ≡ false
    → (t' : Tokenizer) × (expect (suc fuel) (sep ∷ []) t ≡ reads tt t') × Reads seps t' more
unfolding expect text_eq
expect-separator fuel sep t more r m b =
    let (t', e, r') = next-separator seps fuel t sep more r m b in
    let same : (sep == sep) ≡ true = ground arith in
    (t', ap (expected_of (sep ∷ [])) e ∙ (rw (same) refl), r')

Lacks-end :
    (w : Text) (x : ℕ)
    → AreDigits w
    → is_digit x ≡ false
    → (x == 10) ≡ false
    → Lacks (w ++ 10 ∷ []) x
Lacks-end [] x a n e = (e, tt)
Lacks-end (c ∷ w) x (d, a) n e = (ground arith, Lacks-end w x a n e)

number-last :
    (fuel n : ℕ) (t : Tokenizer)
    → Reads seps t (decimal n ++ 10 ∷ [])
    → (t' : Tokenizer) × (number (suc fuel) t ≡ reads (pos n) t')
unfolding number
number-last fuel n t r =
    let a = decimal-AreDigits n in
    let (h, _) = length-decimal n in
    let lacks : All (Lacks (decimal n ++ 10 ∷ [])) seps = (
      Lacks-end (decimal n) 46 a refl refl,
      (Lacks-end (decimal n) 58 a refl refl, (Lacks-end (decimal n) 32 a refl refl, tt)),
    ) in
    let (t', e) =
      next-last seps fuel t (decimal n ++ 10 ∷ []) r lacks
        (omega (arith, h, length-append (decimal n) (10 ∷ [])))
        (not_blank (decimal n) (10 ∷ []) a h) in
    (t', ap number_of e ∙ ap (λ i. reads i t') (atoi-decimal n).1)

-- The text that the tokenizer reads.
abbrev printed : SockAddr → Text
printed s =
    decimal s.addr.a
    ++ 46
      ∷ (decimal s.addr.b
          ++ 46 ∷ (decimal s.addr.c ++ 46 ∷ (decimal s.addr.d ++ 58 ∷ (decimal s.port ++ 10 ∷ []))))

dotted :
    (a b c d tail : Text)
    → (a ++ 46 ∷ (b ++ 46 ∷ (c ++ 46 ∷ d))) ++ tail ≡ a ++ 46 ∷ (b ++ 46 ∷ (c ++ 46 ∷ (d ++ tail)))
dotted a b c d tail =
    append_assoc a (46 ∷ (b ++ 46 ∷ (c ++ 46 ∷ d))) tail
    ∙ ap (λ (l : Text). a ++ 46 ∷ l)
        (append_assoc b (46 ∷ (c ++ 46 ∷ d)) tail
          ∙ ap (λ (l : Text). b ++ 46 ∷ l) (append_assoc c (46 ∷ d) tail))

printed_lem : (s : SockAddr) → print_addr s ++ 10 ∷ [] ≡ printed s
unfolding print_addr print_ip
printed_lem s =
    append_assoc (print_ip s.addr) (58 ∷ decimal s.port) (10 ∷ [])
    ∙ dotted (decimal s.addr.a) (decimal s.addr.b) (decimal s.addr.c) (decimal s.addr.d)
        (58 ∷ (decimal s.port ++ 10 ∷ []))

length-number : (n x : ℕ) (rest : Text) → length (decimal n ++ x ∷ rest) ≤ n + 2 + length rest
length-number n x rest = omega (arith, length-append (decimal n) (x ∷ rest), length-decimal n)

pub record IsAddr (s : SockAddr) : Type 0 where
  pub bytes : AreBytes s.addr
  pub port_fits : s.port < 65_536

length-printed : (s : SockAddr) → IsAddr s → length (printed s) < 2 ^ 31
length-printed s v =
    let p : Text = decimal s.port ++ 10 ∷ [] in
    let d : Text = decimal s.addr.d ++ 58 ∷ p in
    let c : Text = decimal s.addr.c ++ 46 ∷ d in
    let b : Text = decimal s.addr.b ++ 46 ∷ c in
    let lp : length p ≤ s.port + 2 + 0 = length-number s.port 10 [] in
    let ld : length d ≤ s.addr.d + 2 + length p = length-number s.addr.d 58 p in
    let lc : length c ≤ s.addr.c + 2 + length d = length-number s.addr.c 46 d in
    let lb : length b ≤ s.addr.b + 2 + length c = length-number s.addr.b 46 c in
    let la : length (printed s) ≤ s.addr.a + 2 + length b = length-number s.addr.a 46 b in
    omega (
      arith, lp, ld, lc, lb, la, v.port_fits, v.bytes.a_fits, v.bytes.b_fits, v.bytes.c_fits,
      v.bytes.d_fits,
    )

bind-reads :
    {A B : Type 0} (m : Tokenizer → Parsing A) (f : A → Tokenizer → Parsing B) (t : Tokenizer)
    (a : A) (t' : Tokenizer)
    → m t ≡ reads a t'
    → (m >>= f) t ≡ f a t'
bind-reads m f t a t' e =
    ap (λ r. elim r [ reads a t' ↦ f a t' | malformed ↦ malformed | stops ↦ stops ]) e

-- The nine reads, one after the other.
parse_tokens-steps :
    (fuel : ℕ) (a b c d p : ℤ) (t0 t1 t2 t3 t4 t5 t6 t7 t8 t9 : Tokenizer)
    → number fuel t0 ≡ reads a t1
    → expect fuel (46 ∷ []) t1 ≡ reads tt t2
    → number fuel t2 ≡ reads b t3
    → expect fuel (46 ∷ []) t3 ≡ reads tt t4
    → number fuel t4 ≡ reads c t5
    → expect fuel (46 ∷ []) t5 ≡ reads tt t6
    → number fuel t6 ≡ reads d t7
    → expect fuel (58 ∷ []) t7 ≡ reads tt t8
    → number fuel t8 ≡ reads p t9
    → parse_tokens fuel t0 ≡ made a b c d p t9
unfolding parse_tokens
parse_tokens-steps fuel a b c d p t0 t1 t2 t3 t4 t5 t6 t7 t8 t9 e1 e2 e3 e4 e5 e6 e7 e8 e9 =
    bind-reads (number fuel) _ t0 a t1 e1
    ∙ bind-reads (expect fuel (46 ∷ [])) _ t1 tt t2 e2
    ∙ bind-reads (number fuel) _ t2 b t3 e3
    ∙ bind-reads (expect fuel (46 ∷ [])) _ t3 tt t4 e4
    ∙ bind-reads (number fuel) _ t4 c t5 e5
    ∙ bind-reads (expect fuel (46 ∷ [])) _ t5 tt t6 e6
    ∙ bind-reads (number fuel) _ t6 d t7 e7
    ∙ bind-reads (expect fuel (58 ∷ [])) _ t7 tt t8 e8
    ∙ bind-reads (number fuel) _ t8 p t9 e9

made_lem :
    (s : SockAddr) (t : Tokenizer)
    → IsAddr s
    → made (pos s.addr.a) (pos s.addr.b) (pos s.addr.c) (pos s.addr.d) (pos s.port) t ≡ reads s t
unfolding ipv4
made_lem s t v =
    let a : s.addr.a % 256 ≡ s.addr.a = omega (arith, v.bytes.a_fits) in
    let b : s.addr.b % 256 ≡ s.addr.b = omega (arith, v.bytes.b_fits) in
    let c : s.addr.c % 256 ≡ s.addr.c = omega (arith, v.bytes.c_fits) in
    let d : s.addr.d % 256 ≡ s.addr.d = omega (arith, v.bytes.d_fits) in
    let p : s.port % 65_536 ≡ s.port = omega (arith, v.port_fits) in
    λ k. reads (record { addr = record { a = a k; b = b k; c = c k; d = d k }; port = p k }) t

start : (s : SockAddr) → Tokenizer
unfolding new_tokenizer
start s = new_tokenizer (print_addr s) separators (codes " " ∷ []) []

start-Reads : (s : SockAddr) → IsAddr s → Reads seps (start s) (printed s)
unfolding start new_tokenizer
start-Reads s v =
    let n = ap length (printed_lem s) in
    record {
      separators = refl;
      skipping = refl;
      comments_none = refl;
      left = printed_lem s;
      place = omega (arith, n);
      short = omega (arith, n, length-printed s v);
    }

-- A socket address of bytes and a port below 2 ^ 16 that is printed and read back is the same address,
-- for any fuel but zero.
pub parse_addr-print_addr :
    (fuel : ℕ) (s : SockAddr)
    → IsAddr s
    → (t : Tokenizer) × (parse_addr (suc fuel) (print_addr s) ≡ reads s t)
unfolding parse_addr start
parse_addr-print_addr fuel s v =
    let dot : mem 46 seps ≡ true = refl in
    let (t1, e1, r1) = number-decimal fuel s.addr.a 46 (start s) _ (start-Reads s v) dot in
    let (t2, e2, r2) = expect-separator fuel 46 t1 _ r1 dot refl in
    let (t3, e3, r3) = number-decimal fuel s.addr.b 46 t2 _ r2 dot in
    let (t4, e4, r4) = expect-separator fuel 46 t3 _ r3 dot refl in
    let (t5, e5, r5) = number-decimal fuel s.addr.c 46 t4 _ r4 dot in
    let (t6, e6, r6) = expect-separator fuel 46 t5 _ r5 dot refl in
    let (t7, e7, r7) = number-decimal fuel s.addr.d 58 t6 _ r6 refl in
    let (t8, e8, r8) = expect-separator fuel 58 t7 _ r7 refl refl in
    let (t9, e9) = number-last fuel s.port t8 r8 in
    (
      t9,
      parse_tokens-steps (suc fuel) _ _ _ _ _ (start s) t1 t2 t3 t4 t5 t6 t7 t8 t9 e1 e2 e3 e4 e5 e6
            e7 e8 e9
          ∙ made_lem s t9 v,
    )
