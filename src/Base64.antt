-- ===== src/Base64.antt =====
-- `Base64` of src/base64.cpp.
pub mod Codec
pub mod Encode
pub mod Padding
pub mod RoundTrip
pub mod Bounds
mod Tests
