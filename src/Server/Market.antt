-- ===== src/Server/Market.antt =====
-- src/server/market: the market that sells the cycles of the host to the vCPUs.
pub mod Sale
pub mod Auction
pub mod Round
