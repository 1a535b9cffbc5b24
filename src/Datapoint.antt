-- ===== src/Datapoint.antt =====
-- src/knx/datapointtypes/Format.h: values as the data of a group write, and back.
pub mod BooleanFormat
pub mod StringFormat
pub mod UInt8Format
pub mod UInt16Format
pub mod UInt6Format
pub mod KnxFloat16Format
pub mod Laws
mod Tests
