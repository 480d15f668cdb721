-- ===== src/Asterx/SbfWriteQueue.antt =====
-- asterx_driver/src/sbf_write_queue.cpp: the queue between the thread that reads the receiver and the
-- thread that writes the file. Each section under the lock is one step; the block that `WriterLoop` has
-- taken and not yet accounted for is in flight. The writer (`SbfWriter`) is a parameter: what a call
-- returns, and the writer after it. Log lines are left out; the failure callback is counted.
pub mod Order
pub mod Budget
use amiga_drivers.Prelude.{
  ℕ, suc, ◌+◌, ◌-◌, ◌%◌, ◌^◌, max, Bool, true, false, not, ◌||◌, Option, none, some, List, [], ◌∷◌,
  ◌++◌, length, codes, to_string, ltb, if◌then◌else◌,
}

abbrev pub Block : Type 0
Block = List ℕ

-- `SbfWriter::Stats`, as far as it is copied.
pub record WriterStats : Type 0 where
  pub records_written : ℕ
  pub bytes_written : ℕ
  pub files_opened : ℕ

-- What the queue calls of a writer.
pub record SbfWriter (W : Type 0) : Type 0 where
  pub write_block : W → Block → Bool × W
  pub close : W → Bool × W
  pub stats : W → WriterStats

pub record SbfWriteQueue (W : Type 0) : Type 0 where
  pub writer : W
  pub max_pending_bytes : ℕ
  pub has_callback : Bool
  pub joinable : Bool
  pub queue : List Block
  pub in_flight : Option Block
  pub pending_bytes : ℕ
  pub stop : Bool
  pub closed : Bool
  pub error : List ℕ
  pub failed : Bool
  pub write_failed : Bool
  pub written : WriterStats
  pub pending_atomic : ℕ
  pub max_pending : ℕ
  pub callbacks : ℕ

-- One step of the program.
pub data Event : Type 0 where
  start_thread : Event
  enqueue_block : Block → Event
  take_block : Event
  finish_block : Event

module _ {W : Type 0} where
  abbrev pub new_queue : W → ℕ → Bool → SbfWriteQueue W
  new_queue writer max_pending_bytes has_callback = record {
    writer = writer;
    max_pending_bytes = max_pending_bytes;
    has_callback = has_callback;
    joinable = false;
    queue = [];
    in_flight = none;
    pending_bytes = 0;
    stop = false;
    closed = false;
    error = [];
    failed = false;
    write_failed = false;
    written = record { records_written = 0; bytes_written = 0; files_opened = 0 };
    pending_atomic = 0;
    max_pending = 0;
    callbacks = 0;
  }

  unfoldable pub start : SbfWriteQueue W → SbfWriteQueue W
  start s = if s.joinable || s.closed then s else record s { stop = false; joinable = true }

  -- `Fail(what, notify)`: the first failure is kept.
  unfoldable pub fail : List ℕ → Bool → SbfWriteQueue W → SbfWriteQueue W
  fail what notify s = if s.failed then s else record s {
    failed = true;
    error = what;
    callbacks =
        if notify then (if s.has_callback then suc s.callbacks else s.callbacks) else s.callbacks;
  }

  unfoldable pub overflow_error : SbfWriteQueue W → List ℕ
  overflow_error s =
      codes "write queue budget exceeded ("
      ++ to_string s.pending_bytes
      ++ codes " B pending, "
      ++ to_string s.max_pending_bytes
      ++ codes " B budget): the disk fell behind"

  -- `Enqueue(block)`: whether the block is taken.
  unfoldable pub enqueue : Block → SbfWriteQueue W → Bool × SbfWriteQueue W
  enqueue [] s = (true, s)
  enqueue (x ∷ xs) s =
      let total = (s.pending_bytes + length (x ∷ xs)) % 2 ^ 64 in
      if s.failed
      then (false, s)
      else if s.stop || s.closed
      then (false, s)
      else if ltb s.max_pending_bytes total
      then (false, fail (overflow_error s) false s)
      else (
        true,
        record s {
          queue = s.queue ++ ((x ∷ xs) ∷ []);
          pending_bytes = total;
          pending_atomic = total;
          max_pending = max s.max_pending total;
        },
      )

  -- `WriterLoop` takes the front block.
  unfoldable pub take_front : SbfWriteQueue W → SbfWriteQueue W
  take_front s =
      if s.joinable
      then elim s.in_flight [
        | some b ↦ s
        | none ↦ elim s.queue [ [] ↦ s | b ∷ rest ↦ record s { in_flight = some b; queue = rest } ]
      ]
      else s

  module _ (writer : SbfWriter W) where
    unfoldable pub write_one : Block → SbfWriteQueue W → Bool × SbfWriteQueue W
    write_one block s =
        let r = writer.write_block s.writer block in
        if s.write_failed
        then (false, s)
        else if r.0
        then (true, record s { writer = r.1; written = writer.stats r.1 })
        else (
          false,
          fail (codes "SBF write failed (disk full or output directory lost?)") true
              (record s { writer = r.1; write_failed = true }),
        )

    -- `WriterLoop` writes the block that it has taken, and then gives its bytes back.
    unfoldable pub finish_with : Option Block → SbfWriteQueue W → SbfWriteQueue W
    finish_with none s = s
    finish_with (some b) s =
        let next = (write_one b s).1 in
        let left = (next.pending_bytes + 2 ^ 64 - length b) % 2 ^ 64 in
        record next { in_flight = none; pending_bytes = left; pending_atomic = left }

    abbrev pub finish_write : SbfWriteQueue W → SbfWriteQueue W
    finish_write s = finish_with s.in_flight s

    -- The rest of the loop, once a stop is asked for: the blocks left are written, and it returns.
    unfoldable pub writer_loop : List Block → SbfWriteQueue W → SbfWriteQueue W
    writer_loop [] s = record s { queue = [] }
    writer_loop (b ∷ rest) s =
        writer_loop rest (finish_write (record s { in_flight = some b; queue = rest }))

    unfoldable pub write_rest : List Block → SbfWriteQueue W → SbfWriteQueue W
    write_rest [] s = s
    write_rest (b ∷ rest) s = write_rest rest (write_one b s).1

    -- The blocks reach the writer on its thread, or on this one if it was never started.
    unfoldable pub drain_queue : SbfWriteQueue W → SbfWriteQueue W
    drain_queue s =
        if s.joinable
        then record (writer_loop s.queue (finish_write s)) { joinable = false }
        else write_rest s.queue (record s { queue = []; pending_bytes = 0; pending_atomic = 0 })

    unfoldable pub close_writer : SbfWriteQueue W → SbfWriteQueue W
    close_writer s =
        let r = writer.close s.writer in
        let next = record s { writer = r.1 } in
        if r.0 then next else fail (codes "SBF final flush/close failed") false next

    -- `Close()`: the verdict, and the queue after it.
    unfoldable pub close : SbfWriteQueue W → Bool × SbfWriteQueue W
    close s =
        let last = close_writer (drain_queue (record s { stop = true })) in
        if s.closed then (not s.failed, s) else (not last.failed, record last { closed = true })

    -- The blocks that were taken, and the queue after the step.
    unfoldable pub step : Event → SbfWriteQueue W → List Block × SbfWriteQueue W
    step Event.start_thread s = ([], start s)
    step (Event.enqueue_block []) s = ([], s)
    step (Event.enqueue_block (x ∷ xs)) s =
        let r = enqueue (x ∷ xs) s in (if r.0 then (x ∷ xs) ∷ [] else [], r.1)
    step Event.take_block s = ([], take_front s)
    step Event.finish_block s = ([], finish_write s)

    unfoldable pub run : List Event → SbfWriteQueue W → List Block × SbfWriteQueue W
    run [] s = ([], s)
    run (e ∷ rest) s =
        let first = step e s in let later = run rest first.1 in (first.0 ++ later.0, later.1)
