-- ===== src/Connection/Tunneling/Laws.antt =====
-- The laws of a tunneling connection.
pub mod Close
pub mod Receive
pub mod Matching
pub mod Pointers
pub mod Sending
pub mod Last
pub mod Silence
pub mod Acknowledged
pub mod Invariant
pub mod Steps
pub mod Safety
