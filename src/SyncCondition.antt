-- ===== src/SyncCondition.antt =====
-- The counter of include/sync_condition.h that threads wait for.
pub mod Threads
pub mod Wakeup
mod Tests
