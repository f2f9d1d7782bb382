-- ===== src/Codec.antt =====
-- src/lib.rs: the codecs that every endpoint shares.
pub mod Hex
pub mod Base64
pub mod Sha1
pub mod Uuid
mod Tests
mod UnitTests
