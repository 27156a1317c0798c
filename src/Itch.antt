-- ===== src/Itch.antt =====
-- The ITCH 5.0 codec of include/ItchMessages.hpp.
mod Tests
pub mod Bytes
pub mod Types
pub mod Decode
pub mod Encode
pub mod Dispatch
pub mod Message
pub mod Roundtrip
