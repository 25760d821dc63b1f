-- ===== src/Server/Vms/Sessions.antt =====
-- A whole session: the client's request, the daemon's handler on what it sent, the client on the reply.
pub mod Meaning
pub mod Wire
pub mod Refine
pub mod Started
use cgroup_monitor.Prelude.{
  ℕ, ◌^◌, ◌<◌, ◌≡◌, refl, ap, ◌∙◌, sym, Bool, true, false, Option, none, some, List, [], ◌∷◌, ◌++◌,
  Text, if◌then◌else◌, ◌==◌, length, arith,
}
use cgroup_monitor.Prelude.Words.{ℤ}
use cgroup_monitor.Floats.{Floats}
use cgroup_monitor.Libvirt.Proto.{kill_code}
use cgroup_monitor.Net.Addr.{SockAddr}
use cgroup_monitor.Net.Stream.{TcpStream, to_bytes, receive_int, receive, send_int, send, close}
use cgroup_monitor.Net.Stream.Delivery.{
  IsPlain, connected, receive_int-connected, receive-connected,
}
use cgroup_monitor.Server.Vms.{
  Handler, ◌>>=◌, give, get_number, get_text_of_length, Daemon, Served, serves, refuse, confirm,
  answer_ip, Host, treat,
}
use cgroup_monitor.Libvirt.Vm.{Vm}
use mathlib.Core.List.{append-nil}

pub get_number-connected :
    {B : Type 0} (f : ℕ → Handler B) (i : ℕ) (a : SockAddr) (rest out : List ℕ)
    → i < 2 ^ 64
    → (get_number >>= f) (connected a (to_bytes 8 i ++ rest) out) ≡ f i (connected a rest out)
get_number-connected f i a rest out h =
    ap (λ (r : ℕ × TcpStream). f r.0 r.1) (receive_int-connected i a rest out h)

-- A text that can be sent with its length in front.
pub record IsSent (msg : Text) : Type 0 where
  pub plain : IsPlain msg
  pub short : length msg < 2 ^ 63

pub get_text-connected :
    {B : Type 0} (f : Text → Handler B) (msg : Text) (a : SockAddr) (rest out : List ℕ)
    → IsSent msg
    → (get_text_of_length >>= f) (connected a (to_bytes 8 (length msg) ++ (msg ++ rest)) out)
      ≡ f msg (connected a rest out)
unfolding get_text_of_length
get_text-connected f msg a rest out v =
    ap (λ (r : Option (Text × TcpStream)). elim r [ none ↦ none | some (x, s) ↦ f x s ])
      (get_number-connected receive (length msg) a (msg ++ rest) out (omega (arith, v.short))
        ∙ receive-connected msg a rest out v.plain v.short)

module _ {F : Floats} where
  pub refuse-connected :
      (d : Daemon F) (a : SockAddr) (inn : List ℕ)
      → refuse d (connected a inn [])
        ≡ some (serves d, close (connected a inn (to_bytes 8 3 ++ to_bytes 8 1)))
  unfolding refuse send_int
  refuse-connected d a inn = refl

  pub confirm-connected :
      (d : Daemon F) (a : SockAddr) (inn : List ℕ)
      → confirm d (connected a inn []) ≡ some (serves d, close (connected a inn (to_bytes 8 2)))
  unfolding confirm send_int
  confirm-connected d a inn = refl

  pub answer_ip-connected :
      (vm : Vm F) (d : Daemon F) (a : SockAddr) (inn : List ℕ)
      → answer_ip vm d (connected a inn [])
        ≡ some (
          serves d,
          close (connected a inn (to_bytes 8 4 ++ (to_bytes 8 (length vm.ip) ++ (vm.ip ++ [])))),
        )
  unfolding answer_ip send_int send
  answer_ip-connected vm d a inn = rw (append-nil) refl
