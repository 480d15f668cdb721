-- ===== src/Lms4xxx/RawRecorder/Keeps.antt =====
-- What opening and closing the files of lms4xxx_driver/src/raw_recorder.cpp leaves as it is.
use amiga_drivers.Prelude.{
  ◌≡◌, ◌∙◌, Bool, true, false, not, [], if◌then◌else◌, Bool-cases, inl, inr, arith,
}
use amiga_drivers.Lms4xxx.RawSplit.{
  Disk, RawRecorder, Io, fail, attempt, access, write_metadata, create_json, create_bin, create_csv,
  open_split, close_bin, close_csv, close_json, finalize_metadata, close_split,
}

-- The telegrams, their index, the queue and the counts are the same, and a failure stays.
pub record Keeps (s t : RawRecorder) : Type 0 where
  pub bin : t.current.bin ≡ s.current.bin
  pub rows : t.current.rows ≡ s.current.rows
  pub max_file_bytes : t.max_file_bytes ≡ s.max_file_bytes
  pub queue : t.queue ≡ s.queue
  pub accepting : t.accepting ≡ s.accepting
  pub running : t.running ≡ s.running
  pub finished : t.finished ≡ s.finished
  pub split_bytes : t.split_bytes ≡ s.split_bytes
  pub split_frames : t.split_frames ≡ s.split_frames
  pub frames_queued : t.frames_queued ≡ s.frames_queued
  pub frames_written : t.frames_written ≡ s.frames_written
  pub frames_dropped : t.frames_dropped ≡ s.frames_dropped
  pub failed : s.failed ≡ true → t.failed ≡ true

pub Keeps-trans : (s t u : RawRecorder) → Keeps s t → Keeps t u → Keeps s u
Keeps-trans s t u k l = record {
  bin = l.bin ∙ k.bin;
  rows = l.rows ∙ k.rows;
  max_file_bytes = l.max_file_bytes ∙ k.max_file_bytes;
  queue = l.queue ∙ k.queue;
  accepting = l.accepting ∙ k.accepting;
  running = l.running ∙ k.running;
  finished = l.finished ∙ k.finished;
  split_bytes = l.split_bytes ∙ k.split_bytes;
  split_frames = l.split_frames ∙ k.split_frames;
  frames_queued = l.frames_queued ∙ k.frames_queued;
  frames_written = l.frames_written ∙ k.frames_written;
  frames_dropped = l.frames_dropped ∙ k.frames_dropped;
  failed = λ h. l.failed (k.failed h);
}

-- A split that is opened is empty, and the rest is the same.
pub record Opened (s t : RawRecorder) : Type 0 where
  pub bin : t.current.bin ≡ []
  pub rows : t.current.rows ≡ []
  pub split_bytes : t.split_bytes ≡ 0
  pub split_frames : t.split_frames ≡ 0
  pub max_file_bytes : t.max_file_bytes ≡ s.max_file_bytes
  pub queue : t.queue ≡ s.queue
  pub accepting : t.accepting ≡ s.accepting
  pub running : t.running ≡ s.running
  pub finished : t.finished ≡ s.finished
  pub frames_queued : t.frames_queued ≡ s.frames_queued
  pub frames_written : t.frames_written ≡ s.frames_written
  pub frames_dropped : t.frames_dropped ≡ s.frames_dropped
  pub failed : t.failed ≡ s.failed

module _ (disk : Disk) where
  access-Keeps : (s : RawRecorder) → Keeps s (access disk s).1
  unfolding access
  access-Keeps s = ground arith

  attempt-Keeps : (m : Io) (s : RawRecorder) → Keeps s (m s).1 → Keeps s (attempt m s)
  unfolding fail
  attempt-Keeps m s k = ground (arith, k)

  close_bin-Keeps : (s : RawRecorder) → Keeps s (close_bin disk s).1
  unfolding close_bin access
  close_bin-Keeps s = ground arith

  close_csv-Keeps : (s : RawRecorder) → Keeps s (close_csv disk s).1
  unfolding close_csv access
  close_csv-Keeps s = ground arith

  close_json-Keeps : (s : RawRecorder) → Keeps s (close_json disk s).1
  unfolding close_json access
  close_json-Keeps s = ground arith

  write_metadata-Keeps : (clean : Bool) (s : RawRecorder) → Keeps s (write_metadata disk clean s).1
  unfolding write_metadata
  write_metadata-Keeps clean s = ground arith

  attempt_then-Keeps :
      (b : Bool) (m : Io) (s t : RawRecorder)
      → Keeps s t
      → Keeps t (m t).1
      → Keeps s (if b then attempt m t else t)
  attempt_then-Keeps true m s t k l = Keeps-trans s t (attempt m t) k (attempt-Keeps m t l)
  attempt_then-Keeps false m s t k l = k

  finalize_metadata-Keeps : (s : RawRecorder) → Keeps s (finalize_metadata disk s)
  unfolding finalize_metadata
  finalize_metadata-Keeps s =
      let counted = attempt (write_metadata disk false) s in
      let clean =
        if not counted.failed then attempt (write_metadata disk true) counted else counted in
      let marked = if clean.failed then attempt (write_metadata disk false) clean else clean in
      let a = attempt-Keeps (write_metadata disk false) s (write_metadata-Keeps false s) in
      let b =
        attempt_then-Keeps (not counted.failed) (write_metadata disk true) s counted a
          (write_metadata-Keeps true counted) in
      let c =
        attempt_then-Keeps clean.failed (write_metadata disk false) s clean b
          (write_metadata-Keeps false clean) in
      Keeps-trans s marked (attempt (close_json disk) marked) c
        (attempt-Keeps (close_json disk) marked (close_json-Keeps marked))

  Keeps-refl : (s : RawRecorder) → Keeps s s
  Keeps-refl s = ground arith

  pub close_split-Keeps : (s : RawRecorder) → Keeps s (close_split disk s)
  unfolding close_split
  close_split-Keeps s =
      let s1 = if s.bin_open then attempt (access disk) s else s in
      let s2 = if s1.csv_open then attempt (access disk) s1 else s1 in
      let s3 = attempt (close_bin disk) s2 in
      let s4 = attempt (close_csv disk) s3 in
      let a = attempt_then-Keeps s.bin_open (access disk) s s (Keeps-refl s) (access-Keeps s) in
      let b = attempt_then-Keeps s1.csv_open (access disk) s s1 a (access-Keeps s1) in
      let c = Keeps-trans s s2 s3 b (attempt-Keeps (close_bin disk) s2 (close_bin-Keeps s2)) in
      let d = Keeps-trans s s3 s4 c (attempt-Keeps (close_csv disk) s3 (close_csv-Keeps s3)) in
      elim (Bool-cases s4.json_open) [
        | inl e ↦
            ground (
              arith,
              e,
              Keeps-trans s s4 (finalize_metadata disk s4) d (finalize_metadata-Keeps s4),
            )
        | inr e ↦ ground (arith, e, d)
      ]

  pub open_split-Opened : (s : RawRecorder) → Opened s (open_split disk s).1
  unfolding open_split write_metadata create_json create_bin create_csv access
  open_split-Opened s = ground arith
