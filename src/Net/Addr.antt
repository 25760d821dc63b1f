-- ===== src/Net/Addr.antt =====
-- src/monitor/net/addr.{hh,cc}: IPv4 addresses and socket addresses. The union that packs four bytes
-- into an `unsigned int` has the lowest byte first, as on x86.
pub mod Packed
pub mod Printed
use cgroup_monitor.Prelude.{
  ℕ, ◌+◌, ◌*◌, ◌-◌, ◌/◌, ◌%◌, ◌^◌, Bool, Option, none, some, List, [], ◌∷◌, ◌++◌, Text, codes,
  text_eq, if◌then◌else◌,
}
use cgroup_monitor.Prelude.Words.{ℤ, pos, negsuc}
use cgroup_monitor.Utils.Decimal.{decimal, atoi}
use cgroup_monitor.Utils.Tokenizer.{Tokenizer, new_tokenizer, next}

pub record Ipv4 : Type 0 where
  pub a : ℕ
  pub b : ℕ
  pub c : ℕ
  pub d : ℕ

-- The conversion of an `int` to an unsigned number of `w` values.
abbrev pub wrap : ℕ → ℤ → ℕ
wrap w (pos n) = n % w
wrap w (negsuc n) = w - 1 - n % w

-- The two constructors.
unfoldable pub ipv4_of_full : ℤ → Ipv4
ipv4_of_full full =
    let n = wrap (2 ^ 32) full in
    record { a = n % 256; b = n / 256 % 256; c = n / 65_536 % 256; d = n / 16_777_216 % 256 }

unfoldable pub ipv4 : ℤ → ℤ → ℤ → ℤ → Ipv4
ipv4 a b c d = record { a = wrap 256 a; b = wrap 256 b; c = wrap 256 c; d = wrap 256 d }

unfoldable pub to_n : Ipv4 → ℕ
to_n i = i.a + 256 * i.b + 65_536 * i.c + 16_777_216 * i.d

pub record SockAddr : Type 0 where
  pub addr : Ipv4
  pub port : ℕ

-- The two `operator<<`.
unfoldable pub print_ip : Ipv4 → Text
print_ip i =
    decimal i.a
    ++ (codes "." ++ (decimal i.b ++ (codes "." ++ (decimal i.c ++ (codes "." ++ decimal i.d)))))

unfoldable pub print_addr : SockAddr → Text
unfolding print_ip
print_addr s = print_ip s.addr ++ (codes ":" ++ decimal s.port)

-- `malformed` is the exception `addr_error`, `stops` the end of the fuel.
pub data Parsing (A : Type 0) : Type 0 where
  reads : A → Tokenizer → Parsing A
  malformed : Parsing A
  stops : Parsing A

infixl 5 ◌>>=◌ ◌>>◌
abbrev pub ◌>>=◌ :
    {A B : Type 0} → (Tokenizer → Parsing A) → (A → Tokenizer → Parsing B) → Tokenizer → Parsing B
(m >>= f) t = elim (m t) [ reads a t' ↦ f a t' | malformed ↦ malformed | stops ↦ stops ]

abbrev pub ◌>>◌ :
    {B : Type 0}
    → (Tokenizer → Parsing (Unit {0}))
    → (Tokenizer → Parsing B)
    → Tokenizer
    → Parsing B
m >> k = m >>= λ _. k

abbrev pub number_of : Option (Text × Tokenizer) → Parsing ℤ
number_of none = stops
number_of (some (x, t)) = reads (atoi x) t

-- `atoi` of the next lexeme, and the test that the next lexeme is the one that is expected.
unfoldable pub number : ℕ → Tokenizer → Parsing ℤ
number fuel t = number_of (next fuel t)

abbrev pub expected_of : Text → Option (Text × Tokenizer) → Parsing (Unit {0})
expected_of sep none = stops
expected_of sep (some (x, t)) = if text_eq x sep then reads tt t else malformed

unfoldable pub expect : ℕ → Text → Tokenizer → Parsing (Unit {0})
expect fuel sep t = expected_of sep (next fuel t)

abbrev pub made : ℤ → ℤ → ℤ → ℤ → ℤ → Tokenizer → Parsing SockAddr
made fst scd thd fth port t =
    reads (record { addr = ipv4 fst scd thd fth; port = wrap 65_536 port }) t

unfoldable pub parse_tokens : ℕ → Tokenizer → Parsing SockAddr
parse_tokens fuel = do
  fst ← number fuel
  expect fuel (codes ".")
  scd ← number fuel
  expect fuel (codes ".")
  thd ← number fuel
  expect fuel (codes ".")
  fth ← number fuel
  expect fuel (codes ":")
  port ← number fuel
  made fst scd thd fth port

abbrev pub separators : List Text
separators = codes "." ∷ codes ":" ∷ codes " " ∷ []

-- The constructor from a text.
unfoldable pub parse_addr : ℕ → Text → Parsing SockAddr
unfolding parse_tokens
parse_addr fuel addr = parse_tokens fuel (new_tokenizer addr separators (codes " " ∷ []) [])
