-- ===== src/Strings.antt =====
-- `StringConversions` of include/string_conversions.h over integers: the sixteen parsing overloads
-- are Unsigned and Signed, the four printing ones Print.
pub mod Tables
pub mod Unsigned
pub mod Signed
pub mod Print
pub mod Overloads
pub mod Numerals
pub mod RoundTrip
mod Tests
