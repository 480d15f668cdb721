-- ===== src/Asterx/Tests.antt =====
-- The theorems on asterx_driver at concrete inputs.
use amiga_drivers.Prelude.{ℕ, ◌≡◌, refl, true, List, [], ◌∷◌, ◌++◌, length, arith}
use amiga_drivers.Asterx.SbfWriteQueue.{
  SbfWriter, Event, new_queue, start, enqueue, take_front, write_one, finish_with, writer_loop,
  drain_queue, close_writer, close, step, run,
}
use amiga_drivers.Asterx.SbfWriteQueue.Order.{Complete, close_after_run}
use amiga_drivers.Asterx.SbfWriteQueue.Budget.{
  WithinBudget, run-WithinBudget, Offered, enqueue-Offered,
}

-- A writer that appends to a list.
abbrev list_writer : SbfWriter (List ℕ)
list_writer = record {
  write_block = λ w b. (true, w ++ b);
  close = λ w. (true, w);
  stats = λ w. record { records_written = 1; bytes_written = length w; files_opened = 1 };
}

-- The second block comes while the first is in flight, and the third does not fit.
abbrev events : List Event
events =
    Event.start_thread
    ∷ Event.enqueue_block (1 ∷ 2 ∷ [])
    ∷ Event.take_block
    ∷ Event.enqueue_block (3 ∷ [])
    ∷ Event.finish_block
    ∷ []

events_close : (close list_writer (run list_writer events (new_queue [] 4 true)).1).0 ≡ true
unfolding close close_writer drain_queue writer_loop write_one finish_with run step start enqueue
    take_front
events_close = refl

close_after_run_example :
    Complete list_writer []
      (run list_writer events (new_queue [] 4 true)).0
      (close list_writer (run list_writer events (new_queue [] 4 true)).1).1
close_after_run_example = close_after_run list_writer [] 4 true events events_close

run-WithinBudget_example : WithinBudget 4 (run list_writer events (new_queue [] 4 true)).1
run-WithinBudget_example = run-WithinBudget list_writer [] 4 true events (omega arith) (omega arith)

new_within : WithinBudget 4 (new_queue {W = List ℕ} [] 4 true)
new_within = record {
  budget_kept = refl;
  pending = refl;
  bounded = omega arith;
  high_water = omega arith;
  published = refl;
}

enqueue-Offered_example :
    Offered
      (1 ∷ 2 ∷ [])
      4
      (new_queue {W = List ℕ} [] 4 true)
      (enqueue (1 ∷ 2 ∷ []) (new_queue [] 4 true))
enqueue-Offered_example =
    enqueue-Offered 1 (2 ∷ []) 4 (new_queue [] 4 true) (omega arith) (omega arith) new_within
