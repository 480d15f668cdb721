-- ===== src/Lms4xxx/FrameReceiver.antt =====
-- lms4xxx_driver/src/frame_receiver.cpp: the splitter of the TCP byte stream into CoLa B frames.
-- `buffer` is the bytes below `write_pos`, so `write_pos` is its length. The storage that the source
-- preallocates, the log lines and their rate limit, and the frames' host time stamps are left out.
-- The calls of the two callbacks are kept in order, in `events`.
pub mod Scan
pub mod Telegram
pub mod Splits
pub mod Rounds
pub mod Feed
pub mod Aligned
pub mod Stream
use amiga_drivers.Prelude.{
  ℕ, zero, suc, ◌+◌, ◌-◌, ◌≤◌, max, Bool, true, false, ◌&&◌, ◌||◌, List, [], ◌∷◌, ◌++◌, length,
  get_or, take, drop, ltb, leb, ◌==◌, if◌then◌else◌,
}
use amiga_drivers.Common.ByteUtil.{load_big_u32}
use amiga_drivers.Lms4xxx.ColaB.{compute_checksum}

abbrev pub stx_size : ℕ
stx_size = 4

-- STX(4) + Length(4)
abbrev pub header_size : ℕ
header_size = stx_size + 4

pub record RawFrame : Type 0 where
  pub bytes : List ℕ
  pub checksum_valid : Bool

pub data FrameError : Type 0 where
  length_out_of_range checksum_mismatch garbage incomplete : FrameError

-- A call of `on_frame`, or of `on_error` with the count of consecutive errors.
pub data Event : Type 0 where
  on_frame : RawFrame → Event
  on_error : FrameError → ℕ → Event

pub record FrameReceiver : Type 0 where
  pub max_frame_size : ℕ
  pub buffer : List ℕ
  pub error_covered_until : ℕ
  pub consecutive_framing_errors : ℕ
  pub events : List Event

abbrev pub write_pos : FrameReceiver → ℕ
write_pos r = length r.buffer

unfoldable pub report_framing_error : FrameReceiver → FrameError → FrameReceiver
report_framing_error r error = record r {
  consecutive_framing_errors = r.consecutive_framing_errors + 1;
  events = r.events ++ (on_error error (r.consecutive_framing_errors + 1) ∷ []);
}

-- The span from `begin` to `end`, less what a rejected candidate has accounted for.
unfoldable pub report_garbage : FrameReceiver → ℕ → ℕ → FrameReceiver
report_garbage r begin end =
    if ltb (max begin r.error_covered_until) end then report_framing_error r garbage else r

-- Four bytes 0x02 stand at the front.
unfoldable pub starts_stx : List ℕ → Bool
starts_stx (a ∷ b ∷ c ∷ d ∷ rest) = a == 0x02 && (b == 0x02 && (c == 0x02 && d == 0x02))
starts_stx _ = false

-- The scan from position `i`, where the bytes from `i` on are given; at their end `i` is `write_pos`.
unfoldable pub find_stx_from : List ℕ → ℕ → ℕ
find_stx_from [] i = i
find_stx_from (b ∷ bs) i = if starts_stx (b ∷ bs) then i else find_stx_from bs (i + 1)

-- First STX at or after `offset`; `write_pos` when none.
unfoldable pub find_stx : FrameReceiver → ℕ → ℕ
find_stx r offset = find_stx_from (drop offset r.buffer) offset

-- Drop the consumed bytes below `offset`.
unfoldable pub compact : FrameReceiver → ℕ → FrameReceiver
compact r offset = if offset == 0 then r else record r {
  error_covered_until = r.error_covered_until - offset;
  buffer = drop offset r.buffer;
}

-- A length field out of range: only the header is accounted for, and the scan goes on one byte later.
unfoldable pub reject_length : FrameReceiver → ℕ → ℕ → FrameReceiver × ℕ
reject_length r pos data_len =
    let rejected_end = pos + header_size + (if data_len == 0 then 1 else 0) in
    let r' = record r { error_covered_until = max r.error_covered_until rejected_end } in
    (report_framing_error r' length_out_of_range, 1)

-- A bounded frame at `pos`: delivered with the verdict on its checksum.
unfoldable pub deliver : FrameReceiver → ℕ → ℕ → FrameReceiver × ℕ
deliver r pos data_len =
    let total_frame_size = header_size + data_len + 1 in
    let data_part = take data_len (drop (pos + header_size) r.buffer) in
    let received_cs = get_or r.buffer (pos + header_size + data_len) 0 in
    let checksum_valid = compute_checksum data_part == received_cs in
    let counted =
      if checksum_valid
      then record r { consecutive_framing_errors = 0 }
      else report_framing_error r checksum_mismatch in
    let frame : RawFrame = record {
      bytes = take total_frame_size (drop pos r.buffer);
      checksum_valid = checksum_valid;
    } in
    (
      record counted { error_covered_until = 0; events = counted.events ++ (on_frame frame ∷ []) },
      total_frame_size,
    )

-- The bytes consumed by the frame at `pos`; 0 = incomplete.
unfoldable pub try_extract_frame : FrameReceiver → ℕ → FrameReceiver × ℕ
try_extract_frame r pos =
    let available = write_pos r - pos in
    let data_len = load_big_u32 (drop (pos + stx_size) r.buffer) in
    if ltb available header_size
    then (r, 0)
    else if data_len == 0 || ltb r.max_frame_size data_len
    then reject_length r pos data_len
    else if ltb available (header_size + data_len + 1)
    then (r, 0)
    else deliver r pos data_len

-- The state after one round of the loop in `Feed`: the receiver, `scan_pos`, and whether to go on.
pub record Round : Type 0 where
  pub receiver : FrameReceiver
  pub scan_pos : ℕ
  pub goes_on : Bool

-- No STX: the last 3 bytes are kept, but never bytes of a frame that was delivered.
unfoldable pub round_no_stx : FrameReceiver → ℕ → Round
round_no_stx r scan_pos =
    let keep_from = max scan_pos (write_pos r - 3) in
    if ltb 3 (write_pos r)
    then record {
      receiver = report_garbage r scan_pos keep_from;
      scan_pos = keep_from;
      goes_on = false;
    }
    else record { receiver = r; scan_pos = scan_pos; goes_on = false }

-- Bytes between frames are not CoLa B: they are reported, where there are any.
unfoldable pub skipped : FrameReceiver → ℕ → ℕ → FrameReceiver
skipped r scan_pos stx_pos = if ltb scan_pos stx_pos then report_garbage r scan_pos stx_pos else r

unfoldable pub round_stx : FrameReceiver → ℕ → ℕ → Round
round_stx r scan_pos stx_pos =
    let (r', consumed) = try_extract_frame (skipped r scan_pos stx_pos) stx_pos in
    if consumed == 0
    then record { receiver = r'; scan_pos = stx_pos; goes_on = false }
    else record { receiver = r'; scan_pos = stx_pos + consumed; goes_on = true }

unfoldable pub round : FrameReceiver → ℕ → Round
round r scan_pos =
    let stx_pos = find_stx r scan_pos in
    if stx_pos == write_pos r then round_no_stx r scan_pos else round_stx r scan_pos stx_pos

-- `while (scan_pos < write_pos)`. Every round that goes on consumes a byte at least, so as many
-- rounds as there are bytes are enough.
unfoldable pub feed_loop : ℕ → FrameReceiver → ℕ → FrameReceiver × ℕ
feed_loop zero r scan_pos = (r, scan_pos)
feed_loop (suc fuel) r scan_pos =
    let next = round r scan_pos in
    let rest = feed_loop fuel next.receiver next.scan_pos in
    if ltb scan_pos (write_pos r)
    then (if next.goes_on then rest else (next.receiver, next.scan_pos))
    else (r, scan_pos)

unfoldable pub feed : FrameReceiver → List ℕ → FrameReceiver
feed r [] = r
feed r (b ∷ bytes) =
    let received = record r { buffer = r.buffer ++ (b ∷ bytes) } in
    let (r', scan_pos) = feed_loop (write_pos received) received 0 in compact r' scan_pos

unfoldable pub finish : FrameReceiver → FrameReceiver × ℕ
finish r =
    let pending = write_pos r in
    if pending == 0 then (r, 0) else (
      record (report_framing_error r incomplete) { buffer = []; error_covered_until = 0 },
      pending,
    )

unfoldable pub new_receiver : ℕ → FrameReceiver
new_receiver max_frame_size = record {
  max_frame_size = max_frame_size;
  buffer = [];
  error_covered_until = 0;
  consecutive_framing_errors = 0;
  events = [];
}
