-- ===== src/Json.antt =====
-- The strings and Booleans of `JSON`.
pub mod Text
pub mod Codes
pub mod RoundTrip
mod Tests
