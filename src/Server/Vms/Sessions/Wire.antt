-- ===== src/Server/Vms/Sessions/Wire.antt =====
-- The bytes of the requests, and how the client reads the replies.
use cgroup_monitor.Prelude.{ℕ, ◌^◌, ◌<◌, ◌≡◌, refl, ◌∙◌, some, List, [], ◌++◌, Text, length, arith}
use cgroup_monitor.Prelude.Words.{ℤ, pos, negsuc}
use cgroup_monitor.Client.{
  Report, started_at, vm_error, kill_vm, provision_vm, nat_vm, reset_counters, request, confirmed,
  provisioned, provision_reply,
}
use cgroup_monitor.Libvirt.Vm.{to_unsigned}
use cgroup_monitor.Net.Addr.{SockAddr}
use cgroup_monitor.Net.Stream.{to_bytes, receive_int, send_int, send}
use cgroup_monitor.Net.Stream.Delivery.{connected}
use cgroup_monitor.Server.Vms.{give}
use cgroup_monitor.Server.Vms.Sessions.{IsSent, get_number-connected, get_text-connected}
use cgroup_monitor.Utils.Config.{to_int}
use mathlib.Core.List.{append-nil, append_assoc}
use cgroup_monitor.Server.Vms.Sessions.Meaning.{IsInt}

pub to_int-to_unsigned : (z : ℤ) → IsInt z → to_int (pos (to_unsigned z)) ≡ z
unfolding to_int
to_int-to_unsigned (pos n) b = ground arith
to_int-to_unsigned (negsuc n) b = ground arith

pub to_unsigned-lt : (z : ℤ) → IsInt z → to_unsigned z < 2 ^ 64
to_unsigned-lt (pos n) b = omega arith
to_unsigned-lt (negsuc n) b = omega arith

module _ (a : SockAddr) where
  pub confirmed-ok :
      (good bad : Report)
      → confirmed good bad (connected a (to_bytes 8 2) []) ≡ some (good, connected a [] [])
  unfolding confirmed receive_int to_bytes
  confirmed-ok good bad = refl

  pub confirmed-err :
      (good bad : Report)
      → confirmed good bad (connected a (to_bytes 8 3 ++ to_bytes 8 1) [])
        ≡ some (bad, connected a [] [])
  unfolding confirmed receive_int to_bytes
  confirmed-err good bad = refl

  pub provisioned-err :
      provisioned (connected a (to_bytes 8 3 ++ to_bytes 8 1) [])
      ≡ some (vm_error 1, connected a [] [])
  unfolding provisioned receive_int to_bytes
  provisioned-err = refl

  pub provisioned-nothing : provisioned (connected a [] []) ≡ some (vm_error 0, connected a [] [])
  unfolding provisioned receive_int
  provisioned-nothing = refl

  pub provisioned-ip :
      (ip : Text)
      → IsSent ip
      → provisioned (connected a (to_bytes 8 4 ++ (to_bytes 8 (length ip) ++ (ip ++ []))) [])
        ≡ some (started_at ip, connected a [] [])
  unfolding provisioned
  provisioned-ip ip v =
      get_number-connected provision_reply 4 a (to_bytes 8 (length ip) ++ (ip ++ [])) []
        (omega arith)
      ∙ get_text-connected (λ x. give (started_at x)) ip a [] [] v

  unfoldable pub sent_text : ℕ → Text → List ℕ → List ℕ
  sent_text code msg rest = to_bytes 8 code ++ (to_bytes 8 (length msg) ++ (msg ++ rest))

  pub kill-sent :
      (name : Text)
      → request (kill_vm name) (connected a [] []) ≡ some (tt, connected a [] (sent_text 1 name []))
  unfolding request send_int send sent_text
  kill-sent name = rw (append-nil)

  pub provision-sent :
      (file : Text)
      → request (provision_vm file) (connected a [] [])
        ≡ some (tt, connected a [] (sent_text 0 file []))
  unfolding request send_int send sent_text
  provision-sent file = rw (append-nil)

  pub nat-sent :
      (name : Text) (host guest : ℤ)
      → request (nat_vm name host guest) (connected a [] [])
        ≡ some (
          tt,
          connected a [] (
              sent_text 5 name
                (to_bytes 8 (to_unsigned host) ++ (to_bytes 8 (to_unsigned guest) ++ []))),
        )
  unfolding request send_int send sent_text
  nat-sent name host guest = rw (append_assoc)

  pub reset-sent :
      request reset_counters (connected a [] []) ≡ some (tt, connected a [] (to_bytes 8 6 ++ []))
  unfolding request send_int
  reset-sent = refl
