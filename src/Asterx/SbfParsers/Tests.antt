-- ===== src/Asterx/SbfParsers/Tests.antt =====
-- The theorems on asterx_driver/src/sbf_parsers.cpp at a concrete frame.
use amiga_drivers.Prelude.{ℕ, ◌≡◌, ◌≢◌, refl, true, List, [], ◌∷◌, ◌++◌, length, drop, arith}
use amiga_drivers.Prelude.Int.{negsuc}
use amiga_drivers.Common.ByteUtil.{load_little_u16, load_little_u32}
use amiga_drivers.Asterx.SbfTypes.{ReceiverStatus}
use amiga_drivers.Asterx.SbfParsers.{
  Reader, got, stray, load, skip, read_header, read_frame_header, read_agc_state, read_agc_states,
  read_receiver_status_body, parse_block_header, parse_ins_nav_geod, parse_receiver_status,
}
use amiga_drivers.Asterx.SbfParsers.Padding.{parse-IsWithin, parse-padding}
use amiga_drivers.Asterx.SbfParsers.Status.{Consistent, parse_receiver_status-Consistent}

-- A receiver status with one sub-block.
abbrev frame : List ℕ
frame =
    (36 ∷ 64 ∷ 1 ∷ 2 ∷ 174 ∷ 15 ∷ 36 ∷ 0 ∷ 5 ∷ 0 ∷ 0 ∷ 0 ∷ 7 ∷ 0 ∷ [])
    ++ (40 ∷ 0 ∷ 9 ∷ 0 ∷ 0 ∷ 0 ∷ 1 ∷ 0 ∷ 0 ∷ 0 ∷ 0 ∷ 0 ∷ 0 ∷ 0 ∷ 1 ∷ 4 ∷ 3 ∷ 130 ∷ [])
    ++ (2 ∷ 250 ∷ 8 ∷ 0 ∷ [])

abbrev status : ReceiverStatus
status = record {
  block_header = record {
    sync_1 = 36;
    sync_2 = 64;
    crc = 513;
    id = 4014;
    revision = 0;
    length = 36;
    tow = 5;
    wnc = 7;
  };
  cpu_load = 40;
  ext_error = 0;
  up_time = 9;
  rx_status = 1;
  rx_error = 0;
  n = 1;
  sb_length = 4;
  cmd_count = 3;
  temperature = 130;
  agc_state = record { frontend_id = 2; gain = negsuc 5; sample_var = 8; blanking_stat = 0 } ∷ [];
}

abbrev at_end : Reader
at_end = record { size = 36; pos = 36; ok = true }

frame_parsed : parse_receiver_status frame (length frame) ≡ got status at_end
unfolding parse_receiver_status read_frame_header read_header load load_little_u16 load_little_u32
    skip read_receiver_status_body read_agc_states read_agc_state
frame_parsed = refl

parse_receiver_status-Consistent_example : Consistent status
parse_receiver_status-Consistent_example =
    parse_receiver_status-Consistent frame status at_end frame_parsed

parse-IsWithin_example :
    (parse_block_header frame (length frame) ≢ stray)
    × ((parse_ins_nav_geod frame (length frame) ≢ stray)
        × (parse_receiver_status frame (length frame) ≢ stray))
parse-IsWithin_example = parse-IsWithin frame

frame_declares : load_little_u16 (drop 6 frame) ≡ length frame
unfolding load_little_u16
frame_declares = refl

parse-padding_example :
    (parse_ins_nav_geod (frame ++ (1 ∷ 2 ∷ [])) 38 ≡ parse_ins_nav_geod frame 36)
    × (parse_receiver_status (frame ++ (1 ∷ 2 ∷ [])) 38 ≡ parse_receiver_status frame 36)
parse-padding_example = parse-padding frame (1 ∷ 2 ∷ []) (omega arith) frame_declares
