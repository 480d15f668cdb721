-- ===== src/Asterx.antt =====
-- The driver of the AsteRx receivers: asterx_driver.
pub mod SbfTypes
pub mod SbfParsers
pub mod SbfWriteQueue
mod Tests
