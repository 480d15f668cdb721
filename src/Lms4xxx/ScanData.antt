-- ===== src/Lms4xxx/ScanData.antt =====
-- lms4xxx_driver/include/scan_data.h: a LMDscandata telegram. A float is its 32-bit pattern. The two
-- host observations that the live driver adds are not telegram fields and are left out.
use amiga_drivers.Prelude.{ℕ, Bool, false, List, []}
use amiga_drivers.Prelude.Int.{ℤ}

abbrev pub max_points_per_scan : ℕ
max_points_per_scan = 841

pub data ChannelContent16 : Type 0 where
  dist1 rssi1 refl1 angl1 unknown : ChannelContent16

pub data ChannelContent8 : Type 0 where
  qlty1 unknown : ChannelContent8

pub record ChannelData16 : Type 0 where
  pub content : ChannelContent16
  pub scale_factor : ℕ
  pub scale_offset : ℕ
  pub start_angle : ℤ
  pub angle_step : ℕ
  pub num_data : ℕ
  pub samples : List ℕ

pub record ChannelData8 : Type 0 where
  pub content : ChannelContent8
  pub scale_factor : ℕ
  pub scale_offset : ℕ
  pub start_angle : ℤ
  pub angle_step : ℕ
  pub num_data : ℕ
  pub samples : List ℕ

pub record ScanTimestamp : Type 0 where
  pub year : ℕ
  pub month : ℕ
  pub day : ℕ
  pub hour : ℕ
  pub minute : ℕ
  pub second : ℕ
  pub microsecond : ℕ

-- A status byte is kept as it is: the source casts it unchecked.
pub record ScanDeviceInfo : Type 0 where
  pub version_number : ℕ
  pub device_number : ℕ
  pub serial_number : ℕ
  pub device_status_1 : ℕ
  pub device_status_2 : ℕ

pub record ScanData : Type 0 where
  pub device_info : ScanDeviceInfo
  pub telegram_counter : ℕ
  pub scan_counter : ℕ
  pub time_since_startup_us : ℕ
  pub transmission_time_us : ℕ
  pub digital_input_1 : ℕ
  pub digital_input_2 : ℕ
  pub digital_output_1 : ℕ
  pub digital_output_2 : ℕ
  pub scan_frequency : ℕ
  pub measurement_frequency : ℕ
  pub has_encoder : Bool
  pub encoder_position : ℕ
  pub channels_16bit : List ChannelData16
  pub channels_8bit : List ChannelData8
  pub y_rotation : ℕ
  pub has_device_name : Bool
  pub device_name : List ℕ
  pub has_timestamp : Bool
  pub timestamp : ScanTimestamp

-- `ScanData{}`
abbrev pub empty_scan : ScanData
empty_scan = record {
  device_info = record {
    version_number = 0;
    device_number = 0;
    serial_number = 0;
    device_status_1 = 0;
    device_status_2 = 0;
  };
  telegram_counter = 0;
  scan_counter = 0;
  time_since_startup_us = 0;
  transmission_time_us = 0;
  digital_input_1 = 0;
  digital_input_2 = 0;
  digital_output_1 = 0;
  digital_output_2 = 0;
  scan_frequency = 0;
  measurement_frequency = 0;
  has_encoder = false;
  encoder_position = 0;
  channels_16bit = [];
  channels_8bit = [];
  y_rotation = 0;
  has_device_name = false;
  device_name = [];
  has_timestamp = false;
  timestamp = record {
    year = 0;
    month = 0;
    day = 0;
    hour = 0;
    minute = 0;
    second = 0;
    microsecond = 0;
  };
}
