-- ===== src/Lms4xxx/Tests.antt =====
-- The theorems on lms4xxx_driver at concrete inputs.
use amiga_drivers.Prelude.{
  ℕ, ◌+◌, ◌%◌, ◌^◌, ◌≤◌, ◌≡◌, ◌≢◌, refl, true, false, none, some, List, [], ◌∷◌, ◌++◌, map, length,
  codes, replicate, arith,
}
use amiga_drivers.Prelude.Int.{pos, ◌-ℤ◌}
use amiga_drivers.Common.ByteUtil.{load_big_u16, load_big_u32}
use amiga_drivers.Lms4xxx.ColaB.{
  ColaBMessage, compute_checksum, decode, split_name, encode_data, encode, params_of,
}
use amiga_drivers.Lms4xxx.ColaB.RoundTrip.{
  decode-encode_data, decode-Encodes, params_of-encode, Encodes,
}
use amiga_drivers.Lms4xxx.ColaB.Checksum.{compute_checksum_detects}
use amiga_drivers.Lms4xxx.FrameReceiver.{new_receiver, feed, header_size}
use amiga_drivers.Lms4xxx.FrameReceiver.Aligned.{good}
use amiga_drivers.Lms4xxx.FrameReceiver.Feed.{Fed, feed-Fed, feed_bounded}
use amiga_drivers.Lms4xxx.FrameReceiver.Stream.{stream, flatten, feed_all, feed_all-stream}
use amiga_drivers.Lms4xxx.ScanData.{ScanData, empty_scan}
use amiga_drivers.Lms4xxx.ScanDataParser.{
  parse_device_info, parse_frequency, parse_encoder_blocks, parse_encoder, parse_channels16,
  parse_channels16bit, parse_channels8, parse_channels8bit, parse_position, parse_device_name,
  parse_timestamp, parse_end, parse, parse_timestamp_only,
}
use amiga_drivers.Lms4xxx.ScanDataParser.Reader.{
  ok, has_bytes, need, read_uint8, read_uint16, read_uint32, read_float, skip,
}
use amiga_drivers.Lms4xxx.ScanDataParser.Safe.{IsSafe, parse-IsSafe, parse_timestamp_only-IsSafe}
use amiga_drivers.Lms4xxx.ScanDataParser.Layout.{SameTime}
use amiga_drivers.Lms4xxx.ScanDataParser.Monitor.{parse_timestamp_only-parse}
use amiga_drivers.Lms4xxx.ClockQuality.{
  ClockQualityTracker, is_time_anomaly, should_log_clock_change, compare_samples, observe,
  new_tracker,
}
use amiga_drivers.Lms4xxx.ClockQuality.Rollover.{Compared, observe-Compared, anomaly_logged}
use amiga_drivers.Lms4xxx.RecordingStatus.{
  NtpStatus, Snapshot, WriterStatistics, first_data_loss, assess_recording,
}
use amiga_drivers.Lms4xxx.RecordingStatus.Verdict.{
  Verdict, assess_recording-Verdict, first_data_loss-integrity,
}

-- Two telegrams in three pieces.
abbrev two_parts : List (List ℕ)
two_parts = (1 ∷ 2 ∷ []) ∷ (3 ∷ []) ∷ []

abbrev three_pieces : List (List ℕ)
three_pieces =
    (2 ∷ 2 ∷ 2 ∷ 2 ∷ 0 ∷ 0 ∷ [])
    ∷ (0 ∷ 2 ∷ 1 ∷ 2 ∷ 3 ∷ 2 ∷ 2 ∷ [])
    ∷ (2 ∷ 2 ∷ 0 ∷ 0 ∷ 0 ∷ 1 ∷ 3 ∷ 3 ∷ [])
    ∷ []

three_pieces-stream : flatten three_pieces ≡ stream two_parts
unfolding compute_checksum
three_pieces-stream = refl

feed_all-stream_example :
    ((feed_all (new_receiver 100) three_pieces).events ≡ map good two_parts)
    × ((feed_all (new_receiver 100) three_pieces).buffer ≡ [])
feed_all-stream_example =
    feed_all-stream 100 two_parts three_pieces (omega arith) (omega arith) three_pieces-stream

abbrev noisy : List ℕ
noisy = 9 ∷ 2 ∷ 2 ∷ 2 ∷ 2 ∷ 0 ∷ 0 ∷ 0 ∷ 1 ∷ 3 ∷ 3 ∷ 7 ∷ []

feed-Fed_example : Fed (new_receiver 100) noisy (feed (new_receiver 100) noisy)
feed-Fed_example = feed-Fed (new_receiver 100) noisy

feed_bounded_example :
    length (feed (new_receiver 100) (9 ∷ 2 ∷ 2 ∷ [])).buffer
    ≤ (new_receiver 100).max_frame_size + header_size
feed_bounded_example = feed_bounded (new_receiver 100) 9 (2 ∷ 2 ∷ [])

-- A telegram with the two counters 7 and 5 and no channel.
abbrev telegram : List ℕ
telegram = replicate 11 0 ++ (7 ∷ 0 ∷ 5 ∷ replicate 38 0)

abbrev counted : ScanData
counted = record empty_scan { telegram_counter = 7; scan_counter = 5 }

telegram_parses : parse telegram 0 ≡ ok counted 52
unfolding parse parse_device_info parse_frequency parse_encoder parse_encoder_blocks
    parse_channels16bit parse_channels16 parse_channels8bit parse_channels8 parse_position
    parse_device_name parse_timestamp parse_end need skip read_uint8 read_uint16 read_uint32
    read_float has_bytes load_big_u16 load_big_u32
telegram_parses = refl

parse_timestamp_only-parse_example :
    (n : ScanData) × (parse_timestamp_only telegram 0 ≡ ok n 52) × SameTime n counted
parse_timestamp_only-parse_example = parse_timestamp_only-parse telegram counted 52 telegram_parses

parse-IsSafe_example : IsSafe telegram (parse telegram 0)
parse-IsSafe_example = parse-IsSafe telegram

parse_timestamp_only-IsSafe_example : IsSafe telegram (parse_timestamp_only telegram 0)
parse_timestamp_only-IsSafe_example = parse_timestamp_only-IsSafe telegram

abbrev empty_message : ColaBMessage
empty_message = record { command_type = []; command_name = []; payload = [] }

decode-encode_data_example :
    decode (encode_data (115 ∷ 82 ∷ 65 ∷ []) (88 ∷ []) (1 ∷ 2 ∷ [])) empty_message ≡ (
      none,
      record { command_type = 115 ∷ 82 ∷ 65 ∷ []; command_name = 88 ∷ []; payload = 1 ∷ 2 ∷ [] },
    )
decode-encode_data_example =
    decode-encode_data 115 82 65 88 [] (1 ∷ 2 ∷ []) empty_message refl (ground arith)

abbrev answer : ColaBMessage
answer = record { command_type = 115 ∷ 82 ∷ 65 ∷ []; command_name = 88 ∷ []; payload = 1 ∷ [] }

answer_decoded : decode (115 ∷ 82 ∷ 65 ∷ 32 ∷ 88 ∷ 32 ∷ 1 ∷ []) empty_message ≡ (none, answer)
unfolding decode split_name
answer_decoded = refl

decode-Encodes_example : Encodes (115 ∷ 82 ∷ 65 ∷ 32 ∷ 88 ∷ 32 ∷ 1 ∷ []) answer
decode-Encodes_example = decode-Encodes _ empty_message answer answer_decoded refl

params_of-encode_example :
    params_of (encode (115 ∷ 82 ∷ 65 ∷ []) (88 ∷ []) (1 ∷ 2 ∷ [])) 1 ≡ 1 ∷ 2 ∷ []
params_of-encode_example = params_of-encode 115 82 65 (88 ∷ []) (1 ∷ 2 ∷ [])

compute_checksum_detects_example :
    compute_checksum ((1 ∷ []) ++ 5 ∷ 2 ∷ []) ≢ compute_checksum ((1 ∷ []) ++ 6 ∷ 2 ∷ [])
compute_checksum_detects_example =
    compute_checksum_detects (1 ∷ []) (2 ∷ []) 5 6 (omega arith) (omega arith) (omega arith)
      (omega arith) (omega arith)

-- The uptime runs over 2^32 between the two scans.
observe-Compared_example :
    Compared
      (observe
        (observe new_tracker (pos 1000000) true (4294967290 % 2 ^ 32) 50).1
        (pos 1000100)
        true
        ((4294967290 + 100) % 2 ^ 32)
        50).0
      (pos 1000100 -ℤ pos 1000000)
      100
      50
observe-Compared_example =
    observe-Compared new_tracker (pos 1000000) (pos 1000100) 4294967290 100 50 (omega arith)
      (omega arith)

abbrev steady : ClockQualityTracker
steady = record { previous_valid = true; previous_utc = pos 1000000; previous_uptime = 500 }

jump_is_anomaly : is_time_anomaly (observe steady (pos 1030000) true 1500 50).0 ≡ true
unfolding is_time_anomaly observe compare_samples ◌-ℤ◌
jump_is_anomaly = refl

anomaly_logged_example :
    should_log_clock_change (observe steady (pos 1030000) true 1500 50).0 ≡ true
anomaly_logged_example = anomaly_logged steady (pos 1030000) true 1500 50 jump_is_anomaly

abbrev one_crc_error : Snapshot
one_crc_error = record {
  frames_received = 10;
  frames_dropped = 0;
  crc_errors = 1;
  framing_errors = 0;
  parse_errors = 0;
  counter_gaps = 0;
  ntp_status = NtpStatus.off;
  clock_step_events = 0;
  device_no_ntp_events = 0;
  time_anomaly_events = 0;
}

abbrev ten_written : WriterStatistics
ten_written = record { frames_queued = 10; frames_written = 10; frames_dropped = 0 }

assess_recording-Verdict_example :
    Verdict one_crc_error ten_written false false false
      (assess_recording one_crc_error ten_written false false false)
assess_recording-Verdict_example =
    assess_recording-Verdict one_crc_error ten_written false false false

crc_error_is_loss : first_data_loss one_crc_error ten_written ≡ some (codes "frame checksum error")
unfolding first_data_loss
crc_error_is_loss = refl

first_data_loss-integrity_example :
    (assess_recording one_crc_error ten_written false false false).data_integrity_failed ≡ true
first_data_loss-integrity_example =
    first_data_loss-integrity one_crc_error ten_written false false false
      (codes "frame checksum error") crc_error_is_loss
