-- ===== src/Verified.antt =====
-- The Verified dex: src/dex/verified.
pub mod Types
pub mod Primary
pub mod Parse
pub mod Prices
pub mod OrderBook
pub mod Secondary
pub mod OnChain
pub mod Paths
pub mod EventPool
