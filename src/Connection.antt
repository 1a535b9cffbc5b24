-- ===== src/Connection.antt =====
-- src/knx/connection: the messages that wait for an answer, and the connections to a router.
pub mod AsyncMessage
pub mod Outcome
pub mod UdpSocket
pub mod Tunneling
pub mod Client
pub mod System
pub mod Discovery
mod Tests
