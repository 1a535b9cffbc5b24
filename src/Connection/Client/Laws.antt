-- ===== src/Connection/Client/Laws.antt =====
-- The laws of a client connection.
pub mod Keys
pub mod Listeners
pub mod Requests
pub mod Confirmed
pub mod Twice
pub mod Invariant
