-- ===== src/Connection/Client.antt =====
-- src/knx/connection/KnxClientConnection.cpp: group reads and writes above a tunneling connection.
pub mod State
pub mod Listeners
pub mod Requests
pub mod Laws
mod Tests
