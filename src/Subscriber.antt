-- ===== src/Subscriber.antt =====
-- The event subscribers that follow the state of a pool from block to block:
-- src/stateful-event-subscriber.ts, class `StatefulEventSubscriber`.
pub mod History
pub mod Object
pub mod Updates
pub mod Order
pub mod Pruning
pub mod Invariant
pub mod Reorg
pub mod Rollback
pub mod Window
pub mod Replay
pub mod Reach
pub mod Fuel
