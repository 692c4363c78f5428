-- ===== src/Tests.antt =====
-- Runs of the models on small inputs, and the theorems applied to them.
mod Subscribers
mod Pools
mod Amounts
mod Orders
mod Schedulers
mod Events
mod Composition
mod V3Pool
mod PoolEvents
mod Ticks
mod Swaps
