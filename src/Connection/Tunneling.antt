-- ===== src/Connection/Tunneling.antt =====
-- src/knx/connection/TunnelingConnection.cpp: a tunnel to a KNX IP router.
pub mod State
pub mod Requests
pub mod Close
pub mod Receive
pub mod Calls
pub mod Run
pub mod Laws
pub mod Tests
