-- ===== src/Deque.antt =====
-- The thread-safe queue `parallel::Deque`: its operations as steps of threads, and what every
-- interleaving of them keeps.
pub mod Threads
pub mod Steps
pub mod Invariant
pub mod Progress
pub mod Sequential
mod Tests
