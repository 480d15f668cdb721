-- ===== src/Lms4xxx.antt =====
-- The driver of the LMS4xxx LiDARs: lms4xxx_driver.
pub mod ErrorCode
pub mod CommandType
pub mod ColaB
pub mod FrameReceiver
pub mod ScanData
pub mod ScanDataParser
pub mod ClockQuality
pub mod RecordingStatus
pub mod CommandChannel
pub mod RawSplit
pub mod RawRecorder
mod Tests
