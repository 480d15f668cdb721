-- ===== src/Common.antt =====
-- The code that every driver shares: common/include and common/src.
pub mod ByteUtil
pub mod SensorSyncHub
pub mod Ipv4
pub mod RotatingFileWriter
pub mod RunGuards
pub mod RingBuffer
pub mod BoundedQueue
mod Tests
