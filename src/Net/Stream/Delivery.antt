-- ===== src/Net/Stream/Delivery.antt =====
-- What is sent is received, when the system hands over what has arrived.
use cgroup_monitor.Prelude.{
  ℕ, zero, suc, ◌/◌, ◌^◌, ◌<◌, ◌≡◌, refl, ap, true, some, List, [], ◌∷◌, ◌++◌, Text, length, take,
  drop, All, arith, ltb,
}
use cgroup_monitor.Net.Addr.{SockAddr}
use cgroup_monitor.Net.Stream.{
  TcpStream, to_bytes, from_bytes, c_string, send_int, send, receive_int, receive,
}

-- A text that a C string can hold.
abbrev pub IsPlain : Text → Type 0
IsPlain = All (λ c. 0 < c)

length-to_bytes : (k n : ℕ) → length (to_bytes k n) ≡ k
unfolding to_bytes
length-to_bytes zero n = refl
length-to_bytes (suc k) n = ap suc (length-to_bytes k (n / 256))

pub from_bytes-to_bytes : (k n : ℕ) → n < 256 ^ k → from_bytes (to_bytes k n) ≡ n
unfolding to_bytes from_bytes
from_bytes-to_bytes zero n h = omega arith
from_bytes-to_bytes (suc k) n h = omega (arith, from_bytes-to_bytes k (n / 256))

c_string-IsPlain : (s : Text) → IsPlain s → c_string s ≡ s
unfolding c_string
c_string-IsPlain [] p = refl
c_string-IsPlain (c ∷ s) (h, p) = ground (arith, c_string-IsPlain s p)

take-length-append : (xs ys : List ℕ) → take (length xs) (xs ++ ys) ≡ xs
take-length-append [] ys = refl
take-length-append (x ∷ xs) ys = ap (◌∷◌ x) (take-length-append xs ys)

drop-length-append : (xs ys : List ℕ) → drop (length xs) (xs ++ ys) ≡ ys
drop-length-append [] ys = refl
drop-length-append (x ∷ xs) ys = drop-length-append xs ys

-- A stream that is connected, whose reads hand over all that they are asked for, and whose writes
-- succeed.
abbrev pub connected : SockAddr → (incoming outgoing : List ℕ) → TcpStream
connected a incoming outgoing = record {
  is_open = true;
  addr = a;
  incoming = incoming;
  outgoing = outgoing;
  reads = [];
  writes = [];
}

pub send_int-connected :
    (i : ℕ) (a : SockAddr) (inn out : List ℕ)
    → send_int i (connected a inn out) ≡ (true, connected a inn (out ++ to_bytes 8 i))
unfolding send_int
send_int-connected i a inn out = refl

pub send-connected :
    (msg : Text) (a : SockAddr) (inn out : List ℕ)
    → send msg (connected a inn out) ≡ (true, connected a inn (out ++ msg))
unfolding send
send-connected msg a inn out = refl

pub receive_int-connected :
    (i : ℕ) (a : SockAddr) (rest out : List ℕ)
    → i < 2 ^ 64
    → receive_int (connected a (to_bytes 8 i ++ rest) out) ≡ (i, connected a rest out)
unfolding receive_int to_bytes
receive_int-connected i a rest out h =
    ap (λ (n : ℕ). (n, connected a rest out)) (from_bytes-to_bytes 8 i h)

pub receive-connected :
    (msg : Text) (a : SockAddr) (rest out : List ℕ)
    → IsPlain msg
    → length msg < 2 ^ 63
    → receive (length msg) (connected a (msg ++ rest) out) ≡ some (msg, connected a rest out)
unfolding receive
receive-connected msg a rest out p l =
    let had : ltb (length msg) (2 ^ 63) ≡ true = ground (arith, l) in
    rw (had, take-length-append msg rest, drop-length-append msg rest, c_string-IsPlain msg p)
