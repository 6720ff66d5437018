-- ===== src/Range.antt =====
-- `Range` of include/range.h: a set of points as a `std::map` of intervals. Map is the part of
-- `std::map` that the class uses, Ops are its operations, and the other modules are about them.
pub mod Map
pub mod Ops
pub mod Points
pub mod Absorb
pub mod Insert
pub mod Contains
pub mod Rounds
pub mod Difference
mod Tests
