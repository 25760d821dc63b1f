-- ===== src/Server.antt =====
-- The daemon: src/server.
pub mod Market
pub mod Rapl
pub mod Control
pub mod Threads
pub mod Vms
