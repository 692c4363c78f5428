-- ===== src/UniswapV3.antt =====
-- The Uniswap V3 contract arithmetic of src/dex/uniswap-v3/contract-math, and the pool that is
-- kept up to date with it, src/dex/uniswap-v3/uniswap-v3-pool.ts.
pub mod Types
pub mod Bits
pub mod TickBitmap
pub mod FullMath
pub mod SqrtPrice
pub mod SwapStep
pub mod TickMath
pub mod Oracle
pub mod Ticks
pub mod Positions
pub mod Crossing
pub mod Cycles
pub mod Quote
pub mod SwapEvents
pub mod Pool
