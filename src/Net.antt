-- ===== src/Net.antt =====
-- Addresses and streams: src/monitor/net.
pub mod Addr
pub mod Stream
