-- ===== src/PriorityHeap.antt =====
-- The priority queue of include/heap.h.
pub mod Ops
pub mod Capacity
pub mod Contents
pub mod Sorting
pub mod Sorted
mod Tests
