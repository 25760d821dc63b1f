-- ===== src/Tests/Addresses.antt =====
-- Addresses at concrete values.
use cgroup_monitor.Prelude.{◌^◌, ◌<◌, ◌≡◌, refl, arith, codes}
use cgroup_monitor.Prelude.Words.{pos, negsuc}
use cgroup_monitor.Net.Addr.{
  wrap, ipv4_of_full, to_n, Ipv4, SockAddr, print_ip, print_addr, reads, parse_addr,
}
use cgroup_monitor.Net.Addr.Packed.{AreBytes, to_n-ipv4_of_full}
use cgroup_monitor.Net.Addr.Printed.{parse_addr-print_addr}
use cgroup_monitor.Utils.Decimal.{decimal}
use cgroup_monitor.Utils.Tokenizer.{Tokenizer}

abbrev bridge : Ipv4
bridge = record { a = 192; b = 168; c = 122; d = 1 }

bridge-AreBytes : AreBytes bridge
bridge-AreBytes = record {
  a_fits = omega arith;
  b_fits = omega arith;
  c_fits = omega arith;
  d_fits = omega arith;
}

abbrev listener : SockAddr
listener = record { addr = bridge; port = 4040 }

printed : print_addr listener ≡ codes "192.168.122.1:4040"
unfolding print_addr print_ip decimal
printed = refl

parse_addr-print_addr_example :
    (t : Tokenizer) × (parse_addr 1 (print_addr listener) ≡ reads listener t)
parse_addr-print_addr_example =
    parse_addr-print_addr 0 listener (record { bytes = bridge-AreBytes; port_fits = omega arith })

to_n-ipv4_of_full_example :
    AreBytes (ipv4_of_full (negsuc 0))
    × (to_n (ipv4_of_full (negsuc 0)) ≡ wrap (2 ^ 32) (negsuc 0))
    × (to_n bridge < 2 ^ 32)
    × (ipv4_of_full (pos (to_n bridge)) ≡ bridge)
to_n-ipv4_of_full_example = to_n-ipv4_of_full (negsuc 0) bridge bridge-AreBytes
