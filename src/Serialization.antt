-- ===== src/Serialization.antt =====
-- The serializers of include/serialization.h.
pub mod Output
pub mod Written
pub mod Puts
pub mod Sequences
pub mod Locks
pub mod Devices
pub mod Region
pub mod Positions
pub mod Input
pub mod Gets
pub mod InputRegion
pub mod RoundTrip
pub mod InputPositions
mod Tests
