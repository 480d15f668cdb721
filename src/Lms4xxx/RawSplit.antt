-- ===== src/Lms4xxx/RawSplit.antt =====
-- lms4xxx_driver/src/raw_recorder.cpp: the state of the recorder, and the files of a split. The disk is a
-- parameter: whether the n-th access of the run succeeds, and how much of a write that fails is on the disk
-- all the same. A row of the index is its values; the text of rows and metadata, and the session's fields of
-- the metadata, are left out. The counters of 64 bits do not run over. A thrown exception is the answer false.
use amiga_drivers.Prelude.{
  ℕ, suc, ◌-◌, ◌^◌, Bool, true, false, not, ◌&&◌, ◌||◌, Option, none, some, List, [], ◌∷◌, ◌++◌,
  take, ltb, leb, ◌==◌, if◌then◌else◌,
}
use amiga_drivers.Prelude.Int.{ℤ}
use amiga_drivers.Common.BoundedQueue.{BoundedQueue, new_queue}

-- `RawRecord`, with the fields of its frame.
pub record RawRecord : Type 0 where
  pub bytes : List ℕ
  pub receive_timestamp_us : ℕ
  pub checksum_valid : Bool
  pub is_scan : Bool
  pub device_time_unix_us : ℤ
  pub clock_step_us : ℤ
  pub clock_quality_flags : ℕ

-- A row of the CSV index: where the telegram begins, its length, and the record without its bytes.
pub record Row : Type 0 where
  pub offset : ℕ
  pub count : ℕ
  pub telegram : RawRecord

pub record Metadata : Type 0 where
  pub frames_total : ℕ
  pub scans_total : ℕ
  pub bytes_total : ℕ
  pub closed_cleanly : Bool

-- The three files of a split; metadata after a write that failed is none, as it may be torn.
pub record Split : Type 0 where
  pub bin : List ℕ
  pub rows : List Row
  pub metadata : Option Metadata

pub record Disk : Type 0 where
  pub succeeds : ℕ → Bool
  pub torn : ℕ → ℕ

abbrev pub max_offset : ℕ
max_offset = 2 ^ 63 - 1

-- `Impl`; `accesses` counts the accesses to the disk, `finished` the splits before the current one.
pub record RawRecorder : Type 0 where
  pub max_file_bytes : ℕ
  pub queue : BoundedQueue RawRecord
  pub accepting : Bool
  pub failed : Bool
  pub running : Bool
  pub accesses : ℕ
  pub finished : List Split
  pub current : Split
  pub json_open : Bool
  pub bin_open : Bool
  pub csv_open : Bool
  pub split_index : ℕ
  pub split_bytes : ℕ
  pub split_frames : ℕ
  pub split_scans : ℕ
  pub frames_queued : ℕ
  pub frames_written : ℕ
  pub frames_dropped : ℕ
  pub scans_queued : ℕ
  pub scans_written : ℕ
  pub bytes_written : ℕ
  pub files_created : ℕ

abbrev pub empty_split : Split
empty_split = record { bin = []; rows = []; metadata = none }

abbrev pub new_recorder : ℕ → ℕ → RawRecorder
new_recorder queue_capacity max_file_bytes = record {
  max_file_bytes = max_file_bytes;
  queue = new_queue queue_capacity;
  accepting = false;
  failed = false;
  running = false;
  accesses = 0;
  finished = [];
  current = empty_split;
  json_open = false;
  bin_open = false;
  csv_open = false;
  split_index = 0;
  split_bytes = 0;
  split_frames = 0;
  split_scans = 0;
  frames_queued = 0;
  frames_written = 0;
  frames_dropped = 0;
  scans_queued = 0;
  scans_written = 0;
  bytes_written = 0;
  files_created = 0;
}

-- An action that may throw.
abbrev pub Io : Type 0
Io = RawRecorder → Bool × RawRecorder

infixl 5 ◌then_io◌
abbrev pub ◌then_io◌ : Io → Io → Io
◌then_io◌ m k s = let r = m s in if r.0 then k r.1 else (false, r.1)

-- A change that no access to the disk makes.
abbrev pub change : (RawRecorder → RawRecorder) → Io
change f s = (true, f s)

unfoldable pub fail : RawRecorder → RawRecorder
fail s = record s { failed = true }

-- `attempt(action)` in `CloseSplit`.
abbrev pub attempt : Io → RawRecorder → RawRecorder
attempt m s = let r = m s in if r.0 then r.1 else fail r.1

-- Whether a telegram of this length goes to the next split.
abbrev pub is_full : ℕ → RawRecorder → Bool
is_full count s =
    (not (s.split_frames == 0) && not (s.max_file_bytes == 0))
    && (leb s.max_file_bytes s.split_bytes || ltb (s.max_file_bytes - s.split_bytes) count)

module _ (disk : Disk) where
  -- An access that leaves the contents as they are.
  unfoldable pub access : Io
  access s = (disk.succeeds s.accesses, record s { accesses = suc s.accesses })

  unfoldable pub write_metadata : Bool → Io
  write_metadata clean s =
      let written : Metadata = record {
        frames_total = s.split_frames;
        scans_total = s.split_scans;
        bytes_total = s.split_bytes;
        closed_cleanly = clean;
      } in
      let good = disk.succeeds s.accesses in
      (
        good,
        record s {
          accesses = suc s.accesses;
          current = record s.current { metadata = if good then some written else none };
        },
      )

  -- `WriteAll(bin_fd, …)`
  unfoldable pub write_bin : List ℕ → Io
  write_bin bytes s =
      let good = disk.succeeds s.accesses in
      (
        good,
        record s {
          accesses = suc s.accesses;
          current = record s.current {
            bin = s.current.bin ++ (if good then bytes else take (disk.torn s.accesses) bytes);
          };
        },
      )

  -- `WriteAll(csv_fd, …)`: a torn row is none.
  unfoldable pub write_row : Row → Io
  write_row row s =
      let good = disk.succeeds s.accesses in
      (
        good,
        record s {
          accesses = suc s.accesses;
          current = record s.current { rows = s.current.rows ++ (if good then row ∷ [] else []) };
        },
      )

  unfoldable pub create_json : Io
  create_json s = let r = access s in (r.0, record r.1 { json_open = r.0 })

  unfoldable pub create_bin : Io
  create_bin s = let r = access s in (r.0, record r.1 { bin_open = r.0 })

  unfoldable pub create_csv : Io
  create_csv s = let r = access s in (r.0, record r.1 { csv_open = r.0 })

  unfoldable pub open_split : Io
  open_split =
      change (λ s. record s {
        current = empty_split;
        split_bytes = 0;
        split_frames = 0;
        split_scans = 0;
      })
      then_io create_json
      then_io write_metadata false
      then_io create_bin
      then_io change (λ s. record s { files_created = suc s.files_created })
      then_io create_csv
      then_io access
      then_io access
      then_io access
      then_io access

  -- `CloseFd(fd)` gives the descriptor up first.
  unfoldable pub close_bin : Io
  close_bin s = if s.bin_open then access (record s { bin_open = false }) else (true, s)

  unfoldable pub close_csv : Io
  close_csv s = if s.csv_open then access (record s { csv_open = false }) else (true, s)

  unfoldable pub close_json : Io
  close_json s = access (record s { json_open = false })

  unfoldable pub finalize_metadata : RawRecorder → RawRecorder
  finalize_metadata s =
      let counted = attempt (write_metadata false) s in
      let clean = if not counted.failed then attempt (write_metadata true) counted else counted in
      let marked = if clean.failed then attempt (write_metadata false) clean else clean in
      attempt close_json marked

  unfoldable pub close_split : RawRecorder → RawRecorder
  close_split s =
      let s = if s.bin_open then attempt access s else s in
      let s = if s.csv_open then attempt access s else s in
      let s = attempt close_bin s in
      let s = attempt close_csv s in if s.json_open then finalize_metadata s else s
