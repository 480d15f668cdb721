-- ===== src/Ebus.antt =====
-- The cameras' shared driver: ebus_driver.
pub mod BlockIds
pub mod RawFormat
pub mod Recording
mod Tests
