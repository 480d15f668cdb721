-- ===== src/Lms4xxx/ScanDataParser/Safe.antt =====
-- No parse in lms4xxx_driver/src/scan_data_parser.cpp reads outside of the bytes.
use amiga_drivers.Prelude.{
  ℕ, zero, suc, ◌+◌, ◌*◌, ◌≤◌, Bool, true, false, Bool-cases, inl, inr, List, [], ◌∷◌, ◌++◌, length,
  drop, ltb, if◌then◌else◌, leb, arith,
}
use amiga_drivers.Lms4xxx.ScanData.{ScanData, empty_scan}
use amiga_drivers.Common.ByteUtil.{load_big_u16, load_big_u32}
use amiga_drivers.Lms4xxx.ScanDataParser.{
  parse_device_info, parse_frequency, parse_encoder_blocks, parse_encoder, read_samples16,
  read_samples8, parse_channel16, parse_channel8, parse_channels16, parse_channels8,
  parse_channels16bit, parse_channels8bit, parse_position, parse_name_text, parse_device_name,
  parse_time_block, parse_timestamp, parse_end, parse, monitor_header, monitor_encoders,
  monitor_channel, monitor_channel_loop, monitor_channels, monitor_name, monitor_tail,
  peek_time_flag, parse_timestamp_only,
}
use amiga_drivers.Lms4xxx.ScanDataParser.Reader.{
  P, Parsed, ok, err, fault, and_then, need, has_bytes, read_uint8, read_uint16, read_uint32,
  read_int32, read_float, read_string, skip,
}

-- No read out of range, and a position within the bytes.
abbrev pub IsSafe {ℓ} : {A : Type ℓ} → List ℕ → Parsed A → Type 0
IsSafe bytes (ok a p) = p ≤ length bytes
IsSafe bytes (err e) = Unit {0}
IsSafe bytes fault = ⊥

IsSafe-and_then :
    {A B : Type 0} (bytes : List ℕ) (m : Parsed A) (f : A → P B)
    → IsSafe bytes m
    → ((a : A) (p : ℕ) → p ≤ length bytes → IsSafe bytes (f a p))
    → IsSafe bytes (and_then m f)
IsSafe-and_then bytes (ok a p) f h k = k a p h
IsSafe-and_then bytes (err e) f h k = tt
IsSafe-and_then bytes fault f h k = h

-- A section of the parser is safe wherever it starts within the bytes.
abbrev IsSafeAt : {A : Type 0} → List ℕ → P A → Type 0
IsSafeAt bytes m = (p : ℕ) → p ≤ length bytes → IsSafe bytes (m p)

module _ (bytes : List ℕ) where
  parse_device_info-IsSafe : (out : ScanData) → IsSafeAt bytes (parse_device_info bytes out)
  unfolding parse_device_info need read_uint32 read_uint16 read_uint8 skip
  parse_device_info-IsSafe out p h = ground arith

  parse_frequency-IsSafe : (out : ScanData) → IsSafeAt bytes (parse_frequency bytes out)
  unfolding parse_frequency need read_uint32
  parse_frequency-IsSafe out p h = ground arith

  parse_encoder_blocks-IsSafe :
      (left : ℕ) (first : Bool) (out : ScanData)
      → IsSafeAt bytes (parse_encoder_blocks bytes left first out)
  unfolding parse_encoder_blocks need read_uint32 skip
  parse_encoder_blocks-IsSafe zero first out p h = h
  parse_encoder_blocks-IsSafe (suc left) first out p h = ground (
    arith,
    parse_encoder_blocks-IsSafe left false
        (if first then record out { encoder_position = load_big_u32 (drop p bytes) } else out)
        (p + 4 + 2),
  )

  parse_encoder-IsSafe : (out : ScanData) → IsSafeAt bytes (parse_encoder bytes out)
  unfolding parse_encoder need read_uint16
  parse_encoder-IsSafe out p h =
      let n = load_big_u16 (drop p bytes) in
      ground
        (arith, parse_encoder_blocks-IsSafe n true (record out { has_encoder = ltb 0 n }) (p + 2))

  read_samples16-IsSafe :
      (left p : ℕ) → p + left * 2 ≤ length bytes → IsSafe bytes (read_samples16 bytes left p)
  unfolding read_samples16 read_uint16
  read_samples16-IsSafe zero p h = omega arith
  read_samples16-IsSafe (suc left) p h =
      ground (arith, read_samples16-IsSafe left (p + 2) (omega arith))

  read_samples8-IsSafe :
      (left p : ℕ) → p + left ≤ length bytes → IsSafe bytes (read_samples8 bytes left p)
  unfolding read_samples8 read_uint8
  read_samples8-IsSafe zero p h = omega arith
  read_samples8-IsSafe (suc left) p h =
      ground (arith, read_samples8-IsSafe left (p + 1) (omega arith))

  parse_channel16-IsSafe : IsSafeAt bytes (parse_channel16 bytes)
  unfolding parse_channel16 need read_string read_float read_int32 read_uint16
  parse_channel16-IsSafe p h =
      let n = load_big_u16 (drop (p + 5 + 4 + 4 + 4 + 2) bytes) in
      ground (arith, read_samples16-IsSafe n (p + 5 + 4 + 4 + 4 + 2 + 2))

  parse_channel8-IsSafe : IsSafeAt bytes (parse_channel8 bytes)
  unfolding parse_channel8 need read_string read_float read_int32 read_uint16
  parse_channel8-IsSafe p h =
      let n = load_big_u16 (drop (p + 5 + 4 + 4 + 4 + 2) bytes) in
      ground (arith, read_samples8-IsSafe n (p + 5 + 4 + 4 + 4 + 2 + 2))

  parse_channels16-IsSafe :
      (left : ℕ) (out : ScanData) → IsSafeAt bytes (parse_channels16 bytes left out)
  unfolding parse_channels16
  parse_channels16-IsSafe zero out p h = h
  parse_channels16-IsSafe (suc left) out p h =
      IsSafe-and_then bytes (parse_channel16 bytes p) _ (parse_channel16-IsSafe p h) λ c q k.
        parse_channels16-IsSafe left
          (record out { channels_16bit = out.channels_16bit ++ (c ∷ []) }) q k

  parse_channels8-IsSafe :
      (left : ℕ) (out : ScanData) → IsSafeAt bytes (parse_channels8 bytes left out)
  unfolding parse_channels8
  parse_channels8-IsSafe zero out p h = h
  parse_channels8-IsSafe (suc left) out p h =
      IsSafe-and_then bytes (parse_channel8 bytes p) _ (parse_channel8-IsSafe p h) λ c q k.
        parse_channels8-IsSafe left (record out { channels_8bit = out.channels_8bit ++ (c ∷ []) }) q
          k

  parse_channels16bit-IsSafe : (out : ScanData) → IsSafeAt bytes (parse_channels16bit bytes out)
  unfolding parse_channels16bit need read_uint16
  parse_channels16bit-IsSafe out p h =
      ground (arith, parse_channels16-IsSafe (load_big_u16 (drop p bytes)) out (p + 2))

  parse_channels8bit-IsSafe : (out : ScanData) → IsSafeAt bytes (parse_channels8bit bytes out)
  unfolding parse_channels8bit need read_uint16
  parse_channels8bit-IsSafe out p h =
      ground (arith, parse_channels8-IsSafe (load_big_u16 (drop p bytes)) out (p + 2))

  parse_position-IsSafe : (out : ScanData) → IsSafeAt bytes (parse_position bytes out)
  unfolding parse_position need read_float
  parse_position-IsSafe out p h = ground arith

  parse_device_name-IsSafe : (out : ScanData) → IsSafeAt bytes (parse_device_name bytes out)
  unfolding parse_device_name parse_name_text need read_uint16 read_string
  parse_device_name-IsSafe out p h = ground arith

  parse_timestamp-IsSafe : (out : ScanData) → IsSafeAt bytes (parse_timestamp bytes out)
  unfolding parse_timestamp parse_time_block need read_uint8 read_uint16 read_uint32
  parse_timestamp-IsSafe out p h = ground arith

  parse_end-IsSafe : (out : ScanData) → IsSafeAt bytes (parse_end bytes out)
  unfolding parse_end skip has_bytes
  parse_end-IsSafe out p h = ground arith

-- The sections of the monitor.
module _ (bytes : List ℕ) where
  monitor_header-IsSafe : (out : ScanData) → IsSafeAt bytes (monitor_header bytes out)
  unfolding monitor_header need read_uint32 read_uint16 skip
  monitor_header-IsSafe out p h = ground arith

  monitor_encoders-IsSafe : IsSafeAt bytes (monitor_encoders bytes)
  unfolding monitor_encoders need read_uint16 skip
  monitor_encoders-IsSafe p h = ground arith

  monitor_channel-IsSafe : (sample_bytes : ℕ) → IsSafeAt bytes (monitor_channel bytes sample_bytes)
  unfolding monitor_channel need read_uint16 skip
  monitor_channel-IsSafe sample_bytes p h = ground arith

  monitor_channel_loop-IsSafe :
      (sample_bytes left : ℕ) → IsSafeAt bytes (monitor_channel_loop bytes sample_bytes left)
  unfolding monitor_channel_loop
  monitor_channel_loop-IsSafe sample_bytes zero p h = h
  monitor_channel_loop-IsSafe sample_bytes (suc left) p h =
      IsSafe-and_then bytes (monitor_channel bytes sample_bytes p) _
        (monitor_channel-IsSafe sample_bytes p h)
        λ _ q k. monitor_channel_loop-IsSafe sample_bytes left q k

  monitor_channels-IsSafe :
      (sample_bytes : ℕ) → IsSafeAt bytes (monitor_channels bytes sample_bytes)
  unfolding monitor_channels need read_uint16
  monitor_channels-IsSafe sample_bytes p h =
      ground (arith, monitor_channel_loop-IsSafe sample_bytes (load_big_u16 (drop p bytes)) (p + 2))

  monitor_tail-IsSafe : IsSafeAt bytes (monitor_tail bytes)
  unfolding monitor_tail monitor_name need read_uint16 skip
  monitor_tail-IsSafe p h = ground arith

  peek_time_flag-IsSafe : IsSafeAt bytes (peek_time_flag bytes)
  unfolding peek_time_flag need read_uint16
  peek_time_flag-IsSafe p h = ground arith

-- `Parse` of any bytes reads none outside of them: it returns a scan or an error.
pub parse-IsSafe : (bytes : List ℕ) → IsSafe bytes (parse bytes 0)
unfolding parse
parse-IsSafe bytes = elim (Bool-cases (leb 52 (length bytes))) [
  | inr short ↦ rw short tt
  | inl long ↦ rw long (
      IsSafe-and_then bytes _ _ (parse_device_info-IsSafe bytes empty_scan 0 (omega arith)) λ a p h.
        IsSafe-and_then bytes _ _ (parse_frequency-IsSafe bytes a p h) λ b p h.
          IsSafe-and_then bytes _ _ (parse_encoder-IsSafe bytes b p h) λ c p h.
            IsSafe-and_then bytes _ _ (parse_channels16bit-IsSafe bytes c p h) λ d p h.
              IsSafe-and_then bytes _ _ (parse_channels8bit-IsSafe bytes d p h) λ e p h.
                IsSafe-and_then bytes _ _ (parse_position-IsSafe bytes e p h) λ f p h.
                  IsSafe-and_then bytes _ _ (parse_device_name-IsSafe bytes f p h) λ g p h.
                    IsSafe-and_then bytes _ _ (parse_timestamp-IsSafe bytes g p h)
                      λ k p h. parse_end-IsSafe bytes k p h)
]

-- `ParseTimestamp` of any bytes reads none outside of them.
pub parse_timestamp_only-IsSafe : (bytes : List ℕ) → IsSafe bytes (parse_timestamp_only bytes 0)
unfolding parse_timestamp_only
parse_timestamp_only-IsSafe bytes =
    IsSafe-and_then bytes _ _ (monitor_header-IsSafe bytes empty_scan 0 (omega arith)) λ a p h.
      IsSafe-and_then bytes _ _ (monitor_encoders-IsSafe bytes p h) λ _ p h.
        IsSafe-and_then bytes _ _ (monitor_channels-IsSafe bytes 2 p h) λ _ p h.
          IsSafe-and_then bytes _ _ (monitor_channels-IsSafe bytes 1 p h) λ _ p h.
            IsSafe-and_then bytes _ _ (monitor_tail-IsSafe bytes p h) λ _ p h.
              IsSafe-and_then bytes _ _ (peek_time_flag-IsSafe bytes p h) λ _ p h.
                IsSafe-and_then bytes _ _ (parse_timestamp-IsSafe bytes a p h)
                  λ b p h. parse_end-IsSafe bytes b p h
