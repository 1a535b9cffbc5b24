-- ===== src/Cemi.antt =====
-- src/knx/cemi: the frame of the KNX bus that a tunnelling request carries.
pub mod Control
pub mod Tpci
pub mod DataAcpi
pub mod NpduFrame
pub mod AdditionalInformation
pub mod CemiFrame
mod Tests
