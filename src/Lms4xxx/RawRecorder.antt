-- ===== src/Lms4xxx/RawRecorder.antt =====
-- lms4xxx_driver/src/raw_recorder.cpp: the recorder of the telegrams, with its queue and its writer thread.
-- The descriptor of the directory at the end is left out.
pub mod Keeps
pub mod Index
pub mod Orderly
pub mod Complete
pub mod Whole
pub mod Judged
mod Tests
use amiga_drivers.Prelude.{
  ℕ, zero, suc, ◌+◌, ◌-◌, ◌^◌, Bool, true, false, not, ◌&&◌, ◌||◌, Option, none, some, List, [],
  ◌∷◌, ◌++◌, length, take, ltb, leb, ◌==◌, if◌then◌else◌,
}
use amiga_drivers.Prelude.Int.{ℤ}
use amiga_drivers.Lms4xxx.RecordingStatus.{WriterStatistics}
use amiga_drivers.Common.BoundedQueue.{BoundedQueue, Pop, new_queue, try_push, try_pop, close}
use amiga_drivers.Lms4xxx.RawSplit.{
  Disk, Io, Metadata, RawRecord, RawRecorder, Row, Split, access, attempt, change, close_bin,
  close_csv, close_json, close_split, create_bin, create_csv, create_json, empty_split, fail,
  finalize_metadata, is_full, max_offset, new_recorder, open_split, write_bin, write_metadata,
  write_row, ◌then_io◌,
}

module _ (disk : Disk) where
  -- The next split, once the current one is full.
  unfoldable pub rotate : Io
  rotate s =
      let closed = close_split disk s in
      if closed.failed
      then (false, closed)
      else if closed.split_index == 2 ^ 64 - 1
      then (false, closed)
      else open_split disk (record closed {
        split_index = suc closed.split_index;
        finished = closed.finished ++ (closed.current ∷ []);
      })

  -- The end of `Append`, in a split with room.
  unfoldable pub append_record : RawRecord → Io
  append_record r s =
      let row : Row = record { offset = s.split_bytes; count = length r.bytes; telegram = r } in
      let counted = λ (t : RawRecorder). record t {
        split_bytes = t.split_bytes + length r.bytes;
        split_frames = suc t.split_frames;
        split_scans = if r.is_scan then suc t.split_scans else t.split_scans;
        frames_written = suc t.frames_written;
        scans_written = if r.is_scan then suc t.scans_written else t.scans_written;
        bytes_written = t.bytes_written + length r.bytes;
      } in
      if ltb (max_offset - s.split_bytes) (length r.bytes)
      then (false, s)
      else (write_bin disk r.bytes then_io write_row disk row then_io change counted) s

  unfoldable pub append : RawRecord → Io
  append r s =
      let count = length r.bytes in
      if (count == 0) || ltb max_offset count
      then (false, s)
      else if is_full count s
      then (rotate then_io append_record r) s
      else append_record r s

  -- The end of `WriteLoop`: what is left in the queue is dropped.
  unfoldable pub end_loop : ℕ → RawRecorder → RawRecorder
  end_loop pending s = close_split disk (record s {
    accepting = false;
    running = false;
    queue = record (close s.queue) { items = [] };
    frames_dropped = s.frames_dropped + pending + length s.queue.items;
  })

  -- One pass of the loop, without the flush.
  unfoldable pub write_next : RawRecorder → RawRecorder
  write_next s =
      let popped = try_pop s.queue in
      if s.running
      then elim popped.0 [
        | Pop.got r ↦
            let done = append r (record s { queue = popped.1 }) in
            if done.0 then done.1 else end_loop 1 (fail done.1)
        | _ ↦ if s.queue.closed then end_loop 0 s else s
      ]
      else s

  -- The flush, where the interval is over.
  unfoldable pub flush : RawRecorder → RawRecorder
  flush s =
      let done = (access disk then_io access disk) s in
      if s.running then (if done.0 then done.1 else end_loop 0 (fail done.1)) else s

  -- `Start()`, for a configuration without an empty or zero field.
  unfoldable pub start : Io
  start s =
      let opened = (access disk then_io access disk then_io open_split disk) s in
      if opened.0
      then (true, record opened.1 { accepting = true; running = true })
      else (false, close_split disk (record (fail opened.1) { queue = close opened.1.queue }))

unfoldable pub on_frame : RawRecord → RawRecorder → RawRecorder
on_frame r s =
    let pushed = try_push r s.queue in
    if not s.accepting
    then record s { frames_dropped = suc s.frames_dropped }
    else if pushed.0
    then record s {
      queue = pushed.1;
      frames_queued = suc s.frames_queued;
      scans_queued = if r.is_scan then suc s.scans_queued else s.scans_queued;
    }
    else record (fail s) {
      frames_dropped = suc s.frames_dropped;
      accepting = false;
      queue = close s.queue;
    }

-- `Stop()`, up to where it waits for the thread.
unfoldable pub stop : RawRecorder → RawRecorder
stop s = record s { accepting = false; queue = close s.queue }

-- `GetStatistics()`, for the verdict.
unfoldable pub get_statistics : RawRecorder → WriterStatistics
get_statistics s = record {
  frames_queued = s.frames_queued;
  frames_written = s.frames_written;
  frames_dropped = s.frames_dropped;
}

-- One step of either thread.
pub data RecorderEvent : Type 0 where
  frame_event : RawRecord → RecorderEvent
  write_event : RecorderEvent
  flush_event : RecorderEvent
  stop_event : RecorderEvent

module _ (disk : Disk) where
  unfoldable pub step : RecorderEvent → RawRecorder → RawRecorder
  step (RecorderEvent.frame_event r) s = on_frame r s
  step RecorderEvent.write_event s = write_next disk s
  step RecorderEvent.flush_event s = flush disk s
  step RecorderEvent.stop_event s = stop s

  unfoldable pub run : List RecorderEvent → RawRecorder → RawRecorder
  run [] s = s
  run (e ∷ es) s = run es (step e s)
