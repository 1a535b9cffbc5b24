-- ===== src/Headers.antt =====
-- src/knx/headers: the structures that the messages are made of.
pub mod KnxStructure
pub mod KnxAddress
pub mod IpAddress
pub mod Hpai
pub mod ConnectionHeader
pub mod ConnectionRequest
pub mod DeviceDib
pub mod ServiceFamilies
pub mod Text
pub mod ManufacturerDib
mod Tests
