-- ===== src/Common/RotatingFileWriter.antt =====
-- `RotatingFileWriter` of common/include/file_writer.h, and `WriteBlock` of asterx_driver/src/sbf_writer.cpp on
-- top of it. A file is the bytes that its stream has been given. What the streams and the clock do is a
-- parameter: whether the n-th access of the run succeeds, how much of a write that fails is in the file, and
-- whether the interval is over. The paths are left out.
pub mod Cap
pub mod Recorded
mod Tests
use amiga_drivers.Prelude.{
  ℕ, zero, suc, ◌+◌, ◌-◌, Bool, true, false, not, ◌&&◌, ◌||◌, Option, none, some, List, [], ◌∷◌,
  ◌++◌, length, take, ltb, leb, ◌==◌, if◌then◌else◌,
}

-- `on_new_file` is the bytes that the callback writes, if there is one.
pub record Options : Type 0 where
  pub max_file_bytes : ℕ
  pub precheck_size_cap : Bool
  pub on_new_file : Option (List ℕ)

pub record Streams : Type 0 where
  pub succeeds : ℕ → Bool
  pub torn : ℕ → ℕ
  pub interval_over : ℕ → Bool

-- `finished` is the files that were closed.
pub record Writer : Type 0 where
  pub is_open : Bool
  pub failed : Bool
  pub current_bytes : ℕ
  pub seq : ℕ
  pub bytes_written : ℕ
  pub records_written : ℕ
  pub files_opened : ℕ
  pub accesses : ℕ
  pub finished : List (List ℕ)
  pub current : List ℕ

abbrev pub new_writer : Writer
new_writer = record {
  is_open = false;
  failed = false;
  current_bytes = 0;
  seq = 0;
  bytes_written = 0;
  records_written = 0;
  files_opened = 0;
  accesses = 0;
  finished = [];
  current = [];
}

abbrev pub Call : Type 0
Call = Writer → Bool × Writer

-- `if (!m()) return false;`
infixl 5 ◌and_then◌
abbrev pub ◌and_then◌ : Call → Call → Call
◌and_then◌ m k s = let r = m s in if r.0 then k r.1 else (false, r.1)

module _ (opts : Options) (streams : Streams) where
  -- The flush and the close.
  unfoldable pub close_current : Call
  close_current s =
      let flushed = streams.succeeds s.accesses in
      let closed = streams.succeeds (suc s.accesses) in
      let failed = s.failed || not flushed || not closed in
      if s.is_open
      then (
        not failed,
        record s {
          is_open = false;
          failed = failed;
          accesses = suc (suc s.accesses);
          finished = s.finished ++ (s.current ∷ []);
          current = [];
        },
      )
      else (not s.failed, s)

  -- The callback for a new file.
  unfoldable pub write_header : Call
  write_header s = elim opts.on_new_file [
    | none ↦ (true, s)
    | some header ↦
        if streams.succeeds s.accesses
        then (
          true,
          record s { accesses = suc s.accesses; current = header; current_bytes = length header },
        )
        else (
          false,
          (close_current (record s {
            accesses = suc s.accesses;
            current = take (streams.torn s.accesses) header;
            failed = true;
          })).1,
        )
  ]

  unfoldable pub open_file : Call
  open_file s =
      if streams.succeeds s.accesses
      then (
        true,
        record s {
          accesses = suc s.accesses;
          is_open = true;
          current = [];
          current_bytes = 0;
          seq = suc s.seq;
          files_opened = suc s.files_opened;
        },
      )
      else (false, record s { accesses = suc s.accesses; failed = true })

  unfoldable pub open_next : Call
  open_next = close_current and_then open_file and_then write_header

  unfoldable pub rotate_if_needed : Call
  rotate_if_needed s =
      let by_size = ltb 0 opts.max_file_bytes && leb opts.max_file_bytes s.current_bytes in
      if by_size || streams.interval_over s.accesses then open_next s else (true, s)

  -- A file is opened where there is none.
  unfoldable pub ensure_open : Call
  ensure_open s = if s.is_open then (true, s) else open_next s

  unfoldable pub precheck : ℕ → Call
  precheck len s =
      if opts.precheck_size_cap && ltb 0 opts.max_file_bytes
      then (if ltb opts.max_file_bytes len
          then (false, record s { failed = true })
          else if ltb (opts.max_file_bytes - len) s.current_bytes
          then open_next s
          else (true, s))
      else (true, s)

  unfoldable pub write : List ℕ → Call
  write bytes s =
      if streams.succeeds s.accesses
      then (
        true,
        record s {
          accesses = suc s.accesses;
          current = s.current ++ bytes;
          current_bytes = s.current_bytes + length bytes;
          bytes_written = s.bytes_written + length bytes;
          records_written = suc s.records_written;
        },
      )
      else (
        false,
        record s {
          accesses = suc s.accesses;
          current = s.current ++ take (streams.torn s.accesses) bytes;
          failed = true;
        },
      )

  unfoldable pub append : List ℕ → Call
  append bytes s =
      if s.failed
      then (false, s)
      else (ensure_open
            and_then precheck (length bytes)
            and_then write bytes
            and_then rotate_if_needed)
          s

  -- `SbfWriter::WriteBlock(block)`
  unfoldable pub write_block : List ℕ → Call
  write_block block s = if length block == 0 then (true, s) else append block s

-- The calls of the writer's owner; `EndSegment()` and `Close()` are the same.
pub data WriterCall : Type 0 where
  append_call : List ℕ → WriterCall
  end_call : WriterCall

module _ (opts : Options) (streams : Streams) where
  unfoldable pub call : WriterCall → Call
  call (WriterCall.append_call bytes) = append opts streams bytes
  call WriterCall.end_call = close_current opts streams

  unfoldable pub run : List WriterCall → Writer → Writer
  run [] s = s
  run (c ∷ cs) s = run cs (call c s).1
