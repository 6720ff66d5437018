-- ===== src/ThreadPool.antt =====
-- The thread pool of include/thread_pool.h.
pub mod Worker
pub mod Client
pub mod Weights
pub mod Ownership
pub mod Threads
pub mod Choice
mod Tests
