-- ===== src/Strings/RoundTrip.antt =====
-- Printing, then parsing: what the digit loop writes, the two scanning loops read back.
pub mod Digits
pub mod Loops
pub mod Unsigned
pub mod Signed
pub mod Limits
