-- ===== src/Message.antt =====
-- src/knx/ipreqresp: the requests and responses that are exchanged with a KNX IP router.
pub mod IpHeader
pub mod Response
pub mod Request
pub mod Factory
pub mod Tests
