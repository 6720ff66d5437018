-- ===== src/HashTable.antt =====
-- The hash functions, the open-addressing table, and the set and the map on it.
pub mod Hash
pub mod Controller
pub mod Growth
pub mod Table
pub mod Wholes
pub mod Sets
pub mod Maps
pub mod Probes
pub mod Reach
pub mod Nodes
pub mod Placing
pub mod Replacing
pub mod Releasing
pub mod Lookups
pub mod Rehash
pub mod Locate
pub mod Room
pub mod Updates
pub mod SetUpdates
pub mod MapErasure
pub mod Fits
pub mod Filling
pub mod Membership
pub mod Erasure
mod Tests
mod MapTests
