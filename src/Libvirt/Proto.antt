-- ===== src/Libvirt/Proto.antt =====
-- src/monitor/libvirt/proto.hh: the numbers of the requests, of the replies and of the errors.
use cgroup_monitor.Prelude.{ℕ}

abbrev pub provision_code : ℕ
provision_code = 0

abbrev pub kill_code : ℕ
kill_code = 1

abbrev pub ok_code : ℕ
ok_code = 2

abbrev pub err_code : ℕ
err_code = 3

abbrev pub ip_code : ℕ
ip_code = 4

abbrev pub nat_code : ℕ
nat_code = 5

abbrev pub reset_code : ℕ
reset_code = 6

abbrev pub not_found_code : ℕ
not_found_code = 1

abbrev pub protocol_code : ℕ
protocol_code = 2
