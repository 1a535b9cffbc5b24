-- ===== src/Bytes.antt =====
-- src/knx/bytes: reading typed values from a span of bytes and appending them to a vector.
pub mod Parser
pub mod Reader
pub mod Writer
pub mod Wire
pub mod Values
pub mod Stops
pub mod Text
