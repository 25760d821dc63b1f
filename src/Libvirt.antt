-- ===== src/Libvirt.antt =====
-- The monitored machines: src/monitor/libvirt.
pub mod Paths
pub mod Cgroup
pub mod Vcpu
pub mod Vm
pub mod Registry
pub mod Actions
pub mod Provision
pub mod Frequency
pub mod Proto
