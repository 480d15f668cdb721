-- ===== src/Lms4xxx/ScanDataParser.antt =====
-- lms4xxx_driver/src/scan_data_parser.cpp: the payload of a LMDscandata telegram. Each section takes
-- the scan so far and returns the next one. After an error the source leaves a part of the scan in
-- its out parameter; here an error carries no scan. Warnings that are only logged are left out.
pub mod Reader
pub mod Safe
pub mod Layout
pub mod Monitor
use amiga_drivers.Prelude.{
  ℕ, zero, suc, ◌+◌, ◌-◌, ◌*◌, ◌/◌, Bool, true, false, List, [], ◌∷◌, ◌++◌, length, codes, bytes_eq,
  ltb, leb, ◌==◌, if◌then◌else◌,
}
use amiga_drivers.Lms4xxx.ErrorCode.{ErrorCode, frame_too_short, protocol_error}
use amiga_drivers.Lms4xxx.ScanData.{
  ScanData, ChannelData16, ChannelData8, ScanTimestamp, ChannelContent16, ChannelContent8,
  max_points_per_scan, empty_scan,
}
use Reader.{
  P, Parsed, pure, fail, ◌>>=◌, ◌>>◌, check, need, has_bytes, remaining, read_uint8, read_uint16,
  read_uint32, read_int32, read_float, read_string, skip,
}

abbrev max_16bit_channel_count : ℕ
max_16bit_channel_count = 4

abbrev max_encoder_count : ℕ
max_encoder_count = 2

abbrev max_8bit_channel_count : ℕ
max_8bit_channel_count = 1

-- Content(5) Scale(4) Offset(4) StartAngle(4) AngularStep(2) DataCount(2)
abbrev pub channel_header_size : ℕ
channel_header_size = 5 + 4 + 4 + 4 + 2 + 2

unfoldable pub identify_channel16 : List ℕ → ChannelContent16
identify_channel16 name =
    if bytes_eq name (codes "DIST1")
    then ChannelContent16.dist1
    else if bytes_eq name (codes "RSSI1")
    then ChannelContent16.rssi1
    else if bytes_eq name (codes "REFL1")
    then ChannelContent16.refl1
    else if bytes_eq name (codes "ANGL1")
    then ChannelContent16.angl1
    else ChannelContent16.unknown

unfoldable pub identify_channel8 : List ℕ → ChannelContent8
identify_channel8 name =
    if bytes_eq name (codes "QLTY1") then ChannelContent8.qlty1 else ChannelContent8.unknown

module _ (bytes : List ℕ) where
  -- Version(2) DeviceNo(2) Serial(4) Status(2x1) TelegramCtr(2) ScanCtr(2)
  -- TimeSinceStartup(4) TransmissionTime(4) DigIn(2x1) DigOut(2x1) Reserved(2)
  unfoldable pub parse_device_info : ScanData → P ScanData
  parse_device_info out = do
    need bytes 28
    version ← read_uint16 bytes
    device ← read_uint16 bytes
    serial ← read_uint32 bytes
    status_1 ← read_uint8 bytes
    status_2 ← read_uint8 bytes
    telegram_counter ← read_uint16 bytes
    scan_counter ← read_uint16 bytes
    startup ← read_uint32 bytes
    transmission ← read_uint32 bytes
    input_1 ← read_uint8 bytes
    input_2 ← read_uint8 bytes
    output_1 ← read_uint8 bytes
    output_2 ← read_uint8 bytes
    skip bytes 2
    pure (record out {
      device_info = record {
        version_number = version;
        device_number = device;
        serial_number = serial;
        device_status_1 = status_1;
        device_status_2 = status_2;
      };
      telegram_counter = telegram_counter;
      scan_counter = scan_counter;
      time_since_startup_us = startup;
      transmission_time_us = transmission;
      digital_input_1 = input_1;
      digital_input_2 = input_2;
      digital_output_1 = output_1;
      digital_output_2 = output_2;
    })

  unfoldable pub parse_frequency : ScanData → P ScanData
  parse_frequency out = do
    need bytes 8
    scan ← read_uint32 bytes
    measurement ← read_uint32 bytes
    pure (record out { scan_frequency = scan; measurement_frequency = measurement })

  -- The encoder blocks that are left. Every block is consumed, and the first is reported.
  unfoldable pub parse_encoder_blocks : ℕ → Bool → ScanData → P ScanData
  parse_encoder_blocks zero first out = pure out
  parse_encoder_blocks (suc left) first out = do
    need bytes 6
    position ← read_uint32 bytes
    skip bytes 2
    parse_encoder_blocks left false
        (if first then record out { encoder_position = position } else out)

  unfoldable pub parse_encoder : ScanData → P ScanData
  parse_encoder out = do
    need bytes 2
    encoder_count ← read_uint16 bytes
    check (leb encoder_count max_encoder_count) protocol_error
    parse_encoder_blocks encoder_count true (record out { has_encoder = ltb 0 encoder_count })

  unfoldable pub read_samples16 : ℕ → P (List ℕ)
  read_samples16 zero = pure []
  read_samples16 (suc left) = do v ← read_uint16 bytes; vs ← read_samples16 left; pure (v ∷ vs)

  unfoldable pub parse_channel16 : P ChannelData16
  parse_channel16 = do
    need bytes channel_header_size
    name ← read_string bytes 5
    scale_factor ← read_float bytes
    scale_offset ← read_float bytes
    start_angle ← read_int32 bytes
    angle_step ← read_uint16 bytes
    num_data ← read_uint16 bytes
    check (leb num_data max_points_per_scan) protocol_error
    need bytes (num_data * 2)
    samples ← read_samples16 num_data
    pure (record {
      content = identify_channel16 name;
      scale_factor = scale_factor;
      scale_offset = scale_offset;
      start_angle = start_angle;
      angle_step = angle_step;
      num_data = num_data;
      samples = samples;
    })

  unfoldable pub parse_channels16 : ℕ → ScanData → P ScanData
  parse_channels16 zero out = pure out
  parse_channels16 (suc left) out = do
    channel ← parse_channel16
    parse_channels16 left (record out { channels_16bit = out.channels_16bit ++ (channel ∷ []) })

  unfoldable pub parse_channels16bit : ScanData → P ScanData
  parse_channels16bit out = do
    need bytes 2
    channel_count ← read_uint16 bytes
    check (leb channel_count max_16bit_channel_count) protocol_error
    parse_channels16 channel_count out

  unfoldable pub read_samples8 : ℕ → P (List ℕ)
  read_samples8 zero = pure []
  read_samples8 (suc left) = do v ← read_uint8 bytes; vs ← read_samples8 left; pure (v ∷ vs)

  unfoldable pub parse_channel8 : P ChannelData8
  parse_channel8 = do
    need bytes channel_header_size
    name ← read_string bytes 5
    scale_factor ← read_float bytes
    scale_offset ← read_float bytes
    start_angle ← read_int32 bytes
    angle_step ← read_uint16 bytes
    num_data ← read_uint16 bytes
    check (leb num_data max_points_per_scan) protocol_error
    need bytes num_data
    samples ← read_samples8 num_data
    pure (record {
      content = identify_channel8 name;
      scale_factor = scale_factor;
      scale_offset = scale_offset;
      start_angle = start_angle;
      angle_step = angle_step;
      num_data = num_data;
      samples = samples;
    })

  unfoldable pub parse_channels8 : ℕ → ScanData → P ScanData
  parse_channels8 zero out = pure out
  parse_channels8 (suc left) out = do
    channel ← parse_channel8
    parse_channels8 left (record out { channels_8bit = out.channels_8bit ++ (channel ∷ []) })

  unfoldable pub parse_channels8bit : ScanData → P ScanData
  parse_channels8bit out = do
    need bytes 2
    channel_count ← read_uint16 bytes
    check (leb channel_count max_8bit_channel_count) protocol_error
    parse_channels8 channel_count out

  unfoldable pub parse_position : ScanData → P ScanData
  parse_position out = do
    need bytes 4
    y_rotation ← read_float bytes
    pure (record out { y_rotation = y_rotation })

  unfoldable pub parse_name_text : ScanData → P ScanData
  parse_name_text out = do
    need bytes 2
    name_len ← read_uint16 bytes
    check (leb name_len 16) protocol_error
    need bytes name_len
    name ← read_string bytes name_len
    pure (record out { device_name = name })

  -- NameFlag(2) [NameLength(2) Name(var)]
  unfoldable pub parse_device_name : ScanData → P ScanData
  parse_device_name out = do
    need bytes 2
    name_flag ← read_uint16 bytes
    check (leb name_flag 1) protocol_error
    let flagged = record out { has_device_name = name_flag == 1 }
    if name_flag == 1 then parse_name_text flagged else pure flagged

  unfoldable pub parse_time_block : ScanData → P ScanData
  parse_time_block out = do
    need bytes 11
    year ← read_uint16 bytes
    month ← read_uint8 bytes
    day ← read_uint8 bytes
    hour ← read_uint8 bytes
    minute ← read_uint8 bytes
    second ← read_uint8 bytes
    microsecond ← read_uint32 bytes
    pure (record out {
      timestamp = record {
        year = year;
        month = month;
        day = day;
        hour = hour;
        minute = minute;
        second = second;
        microsecond = microsecond;
      };
    })

  -- TimeFlag(2) [Year(2) Month(1) Day(1) Hour(1) Minute(1) Second(1) Microsecond(4)]
  unfoldable pub parse_timestamp : ScanData → P ScanData
  parse_timestamp out = do
    need bytes 2
    time_flag ← read_uint16 bytes
    check (leb time_flag 1) protocol_error
    let flagged = record out { has_timestamp = time_flag == 1 }
    if time_flag == 1 then parse_time_block flagged else pure flagged

  -- The optional reserved field, and then the end.
  unfoldable pub parse_end : ScanData → P ScanData
  parse_end out p =
      if has_bytes bytes p 2
      then (do skip bytes 2; check (remaining bytes (p + 2) == 0) protocol_error; pure out) p
      else (do check (remaining bytes p == 0) protocol_error; pure out) p

  unfoldable pub parse : P ScanData
  parse = do
    check (leb 52 (length bytes)) frame_too_short
    out ← parse_device_info empty_scan
    out ← parse_frequency out
    out ← parse_encoder out
    out ← parse_channels16bit out
    out ← parse_channels8bit out
    out ← parse_position out
    out ← parse_device_name out
    out ← parse_timestamp out
    parse_end out

  -- `ParseTimestamp(data, len, …)`, for every scan after the first: the variable sections are checked
  -- for their length and skipped.
  unfoldable pub monitor_header : ScanData → P ScanData
  monitor_header out = do
    need bytes 36
    skip bytes 10
    telegram_counter ← read_uint16 bytes
    scan_counter ← read_uint16 bytes
    startup ← read_uint32 bytes
    transmission ← read_uint32 bytes
    skip bytes 14
    pure (record out {
      telegram_counter = telegram_counter;
      scan_counter = scan_counter;
      time_since_startup_us = startup;
      transmission_time_us = transmission;
    })

  unfoldable pub monitor_encoders : P (Unit {0})
  monitor_encoders = do
    need bytes 2
    encoders ← read_uint16 bytes
    need bytes (encoders * 6)
    skip bytes (encoders * 6)

  unfoldable pub monitor_channel : ℕ → P (Unit {0})
  monitor_channel sample_bytes = do
    need bytes channel_header_size
    skip bytes 19
    samples ← read_uint16 bytes
    need bytes (samples * sample_bytes)
    skip bytes (samples * sample_bytes)

  unfoldable pub monitor_channel_loop : ℕ → ℕ → P (Unit {0})
  monitor_channel_loop sample_bytes zero = pure tt
  monitor_channel_loop sample_bytes (suc left) = do
    monitor_channel sample_bytes
    monitor_channel_loop sample_bytes left

  unfoldable pub monitor_channels : ℕ → P (Unit {0})
  monitor_channels sample_bytes = do
    need bytes 2
    channels ← read_uint16 bytes
    (λ p. check (leb channels (remaining bytes p / channel_header_size)) frame_too_short p)
    monitor_channel_loop sample_bytes channels

  unfoldable pub monitor_name : P (Unit {0})
  monitor_name = do
    need bytes 2
    name_len ← read_uint16 bytes
    need bytes name_len
    skip bytes name_len

  unfoldable pub monitor_tail : P (Unit {0})
  monitor_tail = do
    need bytes 6
    skip bytes 4
    name_flag ← read_uint16 bytes
    check (leb name_flag 1) protocol_error
    if name_flag == 1 then monitor_name else pure tt

  -- The flag is looked at before `ParseTimestamp(r, out)` reads it.
  unfoldable pub peek_time_flag : P (Unit {0})
  peek_time_flag p =
      (do
        need bytes 2
        time_flag ← read_uint16 bytes
        check (leb time_flag 1) protocol_error
        λ _. pure tt p)
        p

  unfoldable pub parse_timestamp_only : P ScanData
  parse_timestamp_only = do
    out ← monitor_header empty_scan
    monitor_encoders
    monitor_channels 2
    monitor_channels 1
    monitor_tail
    peek_time_flag
    out ← parse_timestamp out
    parse_end out
