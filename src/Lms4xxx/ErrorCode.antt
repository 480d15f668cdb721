-- ===== src/Lms4xxx/ErrorCode.antt =====
-- lms4xxx_driver/include/error.h: the driver's failures.
pub data ErrorCode : Type 0 where
  crc_error protocol_error unexpected_response frame_too_short frame_too_long : ErrorCode
  access_denied command_rejected sopas_error readback_mismatch device_not_ready : ErrorCode
  invalid_config not_connected already_scanning not_scanning : ErrorCode
  stop_measurement_unconfirmed : ErrorCode
