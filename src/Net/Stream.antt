-- ===== src/Net/Stream.antt =====
-- src/monitor/net/stream.{hh,cc}: a connected TCP stream, as one side sees it. What the system does at
-- each `read` and `write` stands in the record: which bytes have arrived, how many of them the next
-- calls of `read` hand over, and whether the next calls of `write` succeed. The bytes are all that the other
-- side sends until it ends the connection: what a `read` finds behind them is the end. A `read` that waits for a
-- side that stays open and silent is left out.
pub mod Delivery
use cgroup_monitor.Prelude.{
  ℕ, zero, suc, ◌+◌, ◌*◌, ◌/◌, ◌%◌, Bool, true, false, Option, none, some, List, [], ◌∷◌, ◌++◌,
  Text, ◌==◌, if◌then◌else◌, ltb, ◌^◌, length, take, drop, min,
}
use cgroup_monitor.Net.Addr.{SockAddr}

pub record TcpStream : Type 0 where
  -- `_sockfd` is not 0.
  pub is_open : Bool
  pub addr : SockAddr
  pub incoming : List ℕ
  pub outgoing : List ℕ
  -- `none` is a `read` that fails, `some k` one that hands over at most k bytes; once the list is used
  -- up, each hands over all that it is asked for and that is there.
  pub reads : List (Option ℕ)
  -- Whether a `write` succeeds; once the list is used up, each does.
  pub writes : List Bool

-- The bytes of an `unsigned long`, the lowest first.
unfoldable pub to_bytes : ℕ → ℕ → List ℕ
to_bytes zero n = []
to_bytes (suc k) n = n % 256 ∷ to_bytes k (n / 256)

unfoldable pub from_bytes : List ℕ → ℕ
from_bytes [] = 0
from_bytes (b ∷ bs) = b + 256 * from_bytes bs

-- A `std::string` made of a buffer that a zero ends.
unfoldable pub c_string : List ℕ → Text
c_string [] = []
c_string (b ∷ bs) = let rest = c_string bs in if b == 0 then [] else b ∷ rest

abbrev pub write_with : List Bool → List ℕ → TcpStream → Bool × TcpStream
write_with [] bs s = (true, record s { outgoing = s.outgoing ++ bs })
write_with (true ∷ ws) bs s = (true, record s { outgoing = s.outgoing ++ bs; writes = ws })
write_with (false ∷ ws) bs s = (false, record s { is_open = false; writes = ws })

-- A `write` and the test of its result.
unfoldable pub write : List ℕ → TcpStream → Bool × TcpStream
write bs s = if s.is_open then write_with s.writes bs s else (false, s)

unfoldable pub send_int : ℕ → TcpStream → Bool × TcpStream
unfolding write to_bytes
send_int i s = write (to_bytes 8 i) s

unfoldable pub send : Text → TcpStream → Bool × TcpStream
unfolding write
send msg s = write msg s

abbrev pub read_with : List (Option ℕ) → ℕ → TcpStream → Option (List ℕ) × TcpStream
read_with [] n s = (some (take n s.incoming), record s { incoming = drop n s.incoming })
read_with (some k ∷ rs) n s = (
  some (take (min k n) s.incoming),
  record s { incoming = drop (min k n) s.incoming; reads = rs },
)
read_with (none ∷ rs) n s = (none, record s { is_open = false; reads = rs })

-- A `read`; one that fails leaves the stream closed.
unfoldable pub read : ℕ → TcpStream → Option (List ℕ) × TcpStream
read n s = read_with s.reads n s

abbrev pub int_of_read : Option (List ℕ) × TcpStream → ℕ × TcpStream
int_of_read (none, s) = (0, s)
int_of_read (some bs, s) = (from_bytes bs, s)

unfoldable pub receive_int : TcpStream → ℕ × TcpStream
unfolding read from_bytes
receive_int s = if s.is_open then int_of_read (read 8 s) else (0, s)

abbrev pub text_of_read : Option (List ℕ) × TcpStream → Option (Text × TcpStream)
text_of_read (none, s) = none
text_of_read (some bs, s) = some (c_string bs, s)

-- `none` is a buffer that cannot be had, of 2 ^ 63 bytes and more, or one that a failed `read` has not
-- filled. Smaller buffers are there.
unfoldable pub receive : ℕ → TcpStream → Option (Text × TcpStream)
unfolding read c_string
receive len s =
    if s.is_open
    then (if ltb len (2 ^ 63) then text_of_read (read len s) else none)
    else some ([], s)

unfoldable pub close : TcpStream → TcpStream
close s = record s { is_open = false }
