-- ===== src/Lms4xxx/ScanDataParser/Layout.antt =====
-- The sections of `Parse` and of the monitor in lms4xxx_driver/src/scan_data_parser.cpp pass over the
-- same bytes.
use amiga_drivers.Prelude.{
  ℕ, zero, suc, ◌+◌, ◌*◌, ◌≤◌, ◌≡◌, Bool, true, false, List, [], ◌∷◌, length, drop, get_or, ltb,
  if◌then◌else◌, arith,
}
use amiga_drivers.Lms4xxx.ScanData.{ScanData, ChannelData16, ChannelData8}
use amiga_drivers.Common.ByteUtil.{load_big_u16, load_big_u32}
use amiga_drivers.Lms4xxx.ScanDataParser.{
  parse_device_info, parse_frequency, parse_encoder_blocks, parse_encoder, read_samples16,
  read_samples8, parse_channel16, parse_channel8, parse_position, parse_name_text,
  parse_device_name, parse_time_block, parse_end, monitor_header, monitor_encoders, monitor_channel,
  monitor_name, monitor_tail,
}
use amiga_drivers.Lms4xxx.ScanDataParser.Reader.{
  ok, need, read_uint8, read_uint16, read_uint32, read_int32, read_float, read_string, skip,
}

-- The counters and the device clocks agree.
pub record SameTime (a b : ScanData) : Type 0 where
  pub telegram_counter : a.telegram_counter ≡ b.telegram_counter
  pub scan_counter : a.scan_counter ≡ b.scan_counter
  pub time_since_startup_us : a.time_since_startup_us ≡ b.time_since_startup_us
  pub transmission_time_us : a.transmission_time_us ≡ b.transmission_time_us
  pub has_timestamp : a.has_timestamp ≡ b.has_timestamp
  pub timestamp : a.timestamp ≡ b.timestamp

module _ (bytes : List ℕ) where
  -- What the device header holds at its fixed places.
  record Header (p : ℕ) (a b : ScanData) : Type 0 where
    telegram_counter : b.telegram_counter ≡ load_big_u16 (drop (p + 10) bytes)
    scan_counter : b.scan_counter ≡ load_big_u16 (drop (p + 12) bytes)
    startup : b.time_since_startup_us ≡ load_big_u32 (drop (p + 14) bytes)
    transmission : b.transmission_time_us ≡ load_big_u32 (drop (p + 18) bytes)
    has_timestamp : b.has_timestamp ≡ a.has_timestamp
    timestamp : b.timestamp ≡ a.timestamp

  device_info_end :
      (a b : ScanData) (p q : ℕ)
      → parse_device_info bytes a p ≡ ok b q
      → (q ≡ p + 28) × Header p a b
  unfolding parse_device_info need read_uint32 read_uint16 read_uint8 skip
  device_info_end a b p q e = ground arith

  frequency_end :
      (a b : ScanData) (p q : ℕ)
      → parse_frequency bytes a p ≡ ok b q
      → (q ≡ p + 8) × (q ≤ length bytes) × SameTime a b
  unfolding parse_frequency need read_uint32
  frequency_end a b p q e = ground arith

  monitor_header_end :
      (m : ScanData) (p : ℕ)
      → p + 36 ≤ length bytes
      → monitor_header bytes m p
        ≡ ok
            (record m {
              telegram_counter = load_big_u16 (drop (p + 10) bytes);
              scan_counter = load_big_u16 (drop (p + 12) bytes);
              time_since_startup_us = load_big_u32 (drop (p + 14) bytes);
              transmission_time_us = load_big_u32 (drop (p + 18) bytes);
            })
            (p + 36)
  unfolding monitor_header need read_uint32 read_uint16 skip
  monitor_header_end m p h = ground arith

  encoder_blocks_end :
      (left : ℕ) (first : Bool) (a b : ScanData) (p q : ℕ)
      → parse_encoder_blocks bytes left first a p ≡ ok b q
      → p ≤ length bytes
      → (q ≡ p + left * 6) × (q ≤ length bytes) × SameTime a b
  unfolding parse_encoder_blocks need read_uint32 skip
  encoder_blocks_end zero first a b p q e h = ground arith
  encoder_blocks_end (suc left) first a b p q e h = ground (
    arith,
    encoder_blocks_end left false
        (if first then record a { encoder_position = load_big_u32 (drop p bytes) } else a) b
        (p + 4 + 2) q,
  )

  -- The monitor reads what the two header sections read.
  pub header_agrees :
      (m a b c : ScanData) (p q k : ℕ)
      → parse_device_info bytes a p ≡ ok b q
      → parse_frequency bytes b q ≡ ok c k
      → m.has_timestamp ≡ a.has_timestamp
      → m.timestamp ≡ a.timestamp
      → (n : ScanData) × (monitor_header bytes m p ≡ ok n k) × SameTime n c
  header_agrees m a b c p q k e f s t =
      let d = device_info_end a b p q e in
      let g = frequency_end b c q k f in
      let r = monitor_header_end m p (omega (arith, d.0, g.0, g.1)) in
      (
        record m {
          telegram_counter = load_big_u16 (drop (p + 10) bytes);
          scan_counter = load_big_u16 (drop (p + 12) bytes);
          time_since_startup_us = load_big_u32 (drop (p + 14) bytes);
          transmission_time_us = load_big_u32 (drop (p + 18) bytes);
        },
        ground (arith, d, g, r),
        ground (arith, d, g),
      )

  pub encoder_agrees :
      (a b : ScanData) (p q : ℕ)
      → parse_encoder bytes a p ≡ ok b q
      → (monitor_encoders bytes p ≡ ok tt q) × SameTime a b
  unfolding parse_encoder monitor_encoders need read_uint16 skip
  encoder_agrees a b p q e =
      let n = load_big_u16 (drop p bytes) in
      ground (arith, encoder_blocks_end n true (record a { has_encoder = ltb 0 n }) b (p + 2) q)

  samples16_end :
      (left p : ℕ)
      → p + left * 2 ≤ length bytes
      → (vs : List ℕ) × (read_samples16 bytes left p ≡ ok vs (p + left * 2))
  unfolding read_samples16 read_uint16
  samples16_end zero p h = ([], ground arith)
  samples16_end (suc left) p h =
      let (vs, e) = samples16_end left (p + 2) (omega arith) in
      (load_big_u16 (drop p bytes) ∷ vs, ground (arith, e))

  samples8_end :
      (left p : ℕ)
      → p + left ≤ length bytes
      → (vs : List ℕ) × (read_samples8 bytes left p ≡ ok vs (p + left))
  unfolding read_samples8 read_uint8
  samples8_end zero p h = ([], ground arith)
  samples8_end (suc left) p h =
      let (vs, e) = samples8_end left (p + 1) (omega arith) in
      (get_or bytes p 0 ∷ vs, ground (arith, e))

  -- A channel is its header and its samples.
  pub channel16_end :
      (c : ChannelData16) (p q : ℕ)
      → parse_channel16 bytes p ≡ ok c q
      → (q ≡ p + 21 + load_big_u16 (drop (p + 19) bytes) * 2) × (q ≤ length bytes)
  unfolding parse_channel16 need read_string read_float read_int32 read_uint16 skip
  channel16_end c p q e = ground (
    arith,
    samples16_end (load_big_u16 (drop (p + 5 + 4 + 4 + 4 + 2) bytes)) (p + 5 + 4 + 4 + 4 + 2 + 2),
  )

  pub channel8_end :
      (c : ChannelData8) (p q : ℕ)
      → parse_channel8 bytes p ≡ ok c q
      → (q ≡ p + 21 + load_big_u16 (drop (p + 19) bytes) * 1) × (q ≤ length bytes)
  unfolding parse_channel8 need read_string read_float read_int32 read_uint16 skip
  channel8_end c p q e = ground (
    arith,
    samples8_end (load_big_u16 (drop (p + 5 + 4 + 4 + 4 + 2) bytes)) (p + 5 + 4 + 4 + 4 + 2 + 2),
  )

  pub monitor_channel_end :
      (width p : ℕ)
      → p + 21 + load_big_u16 (drop (p + 19) bytes) * width ≤ length bytes
      → monitor_channel bytes width p ≡ ok tt (p + 21 + load_big_u16 (drop (p + 19) bytes) * width)
  unfolding monitor_channel need read_uint16 skip
  monitor_channel_end width p h = ground arith

  pub end_agrees :
      (a b m : ScanData) (p q : ℕ)
      → parse_end bytes a p ≡ ok b q
      → (a ≡ b) × (parse_end bytes m p ≡ ok m q)
  unfolding parse_end skip
  end_agrees a b m p q e = (ground arith, ground arith)

  pub position_end :
      (a b : ScanData) (p q : ℕ) → parse_position bytes a p ≡ ok b q → (q ≡ p + 4) × SameTime a b
  unfolding parse_position need read_float
  position_end a b p q e = ground arith

  pub name_agrees :
      (a b : ScanData) (p q : ℕ)
      → parse_device_name bytes a (p + 4) ≡ ok b q
      → (monitor_tail bytes p ≡ ok tt q) × SameTime a b
  unfolding parse_device_name parse_name_text monitor_tail monitor_name need read_uint16 read_string
      skip
  name_agrees a b p q e = ground arith

  pub time_block_agrees :
      (a b m : ScanData) (p q : ℕ)
      → parse_time_block bytes a p ≡ ok b q
      → (parse_time_block bytes m p ≡ ok (record m { timestamp = b.timestamp }) q)
        × (b ≡ record a { timestamp = b.timestamp })
  unfolding parse_time_block need read_uint8 read_uint16 read_uint32
  time_block_agrees a b m p q e = (ground arith, ground arith)
