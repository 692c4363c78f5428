-- ===== src/Scheduling.antt =====
-- The small state machines of src/lib: timers, promises that are tried again, and messages that are
-- logged seldom.
pub mod Tasks
pub mod Promises
pub mod LogMessages
