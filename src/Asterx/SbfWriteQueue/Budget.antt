-- ===== src/Asterx/SbfWriteQueue/Budget.antt =====
-- The memory budget of asterx_driver/src/sbf_write_queue.cpp: the bytes pending are those of the blocks
-- held, and they stay within the budget.
use amiga_drivers.Prelude.{
  ℕ, ◌+◌, ◌^◌, ◌≤◌, ◌<◌, ◌≡◌, refl, Bool, true, false, not, ◌&&◌, ◌||◌, Option, none, some, List,
  [], ◌∷◌, ◌++◌, length, leb, arith,
}
use amiga_drivers.Asterx.SbfWriteQueue.{
  Block, SbfWriter, SbfWriteQueue, Event, new_queue, start, fail, enqueue, take_front, write_one,
  finish_with, step, run,
}

abbrev pub total_bytes : List Block → ℕ
total_bytes [] = 0
total_bytes (b ∷ bs) = length b + total_bytes bs

total_bytes_snoc :
    (bs : List Block) (b : Block) → total_bytes (bs ++ (b ∷ [])) ≡ total_bytes bs + length b
total_bytes_snoc [] b = omega arith
total_bytes_snoc (x ∷ bs) b = omega (arith, total_bytes_snoc bs b)

abbrev pub flight_bytes : Option Block → ℕ
flight_bytes none = 0
flight_bytes (some b) = length b

-- A block's size is a qsizetype.
abbrev pub Sized : Event → Type 0
Sized (Event.enqueue_block b) = length b < 2 ^ 63
Sized _ = Unit {0}

abbrev pub AllSized : List Event → Type 0
AllSized [] = Unit {0}
AllSized (e ∷ es) = Sized e × AllSized es

module _ {W : Type 0} where
  pub record WithinBudget (budget : ℕ) (s : SbfWriteQueue W) : Type 0 where
    pub budget_kept : s.max_pending_bytes ≡ budget
    pub pending : s.pending_bytes ≡ flight_bytes s.in_flight + total_bytes s.queue
    pub bounded : s.pending_bytes ≤ budget
    pub high_water : s.max_pending ≤ budget
    pub published : s.pending_atomic ≡ s.pending_bytes

  module _ (writer : SbfWriter W) where
    step-WithinBudget :
        (budget : ℕ) (e : Event) (s : SbfWriteQueue W)
        → budget < 2 ^ 63
        → Sized e
        → WithinBudget budget s
        → WithinBudget budget (step writer e s).1
    unfolding step start take_front finish_with write_one enqueue fail
    step-WithinBudget budget Event.start_thread s h z k = ground (arith, k)
    step-WithinBudget budget (Event.enqueue_block []) s h z k = k
    step-WithinBudget budget (Event.enqueue_block (x ∷ xs)) s h z k =
        ground (arith, k, total_bytes_snoc s.queue (x ∷ xs))
    step-WithinBudget budget Event.take_block s h z k = ground (arith, k)
    step-WithinBudget budget Event.finish_block s h z k = ground (arith, k)

    run-from :
        (budget : ℕ) (es : List Event) (s : SbfWriteQueue W)
        → budget < 2 ^ 63
        → AllSized es
        → WithinBudget budget s
        → WithinBudget budget (run writer es s).1
    unfolding run
    run-from budget [] s h z k = k
    run-from budget (e ∷ es) s h z k =
        run-from budget es (step writer e s).1 h z.1 (step-WithinBudget budget e s h z.0 k)

-- With a budget below 2^63 and blocks of a size below 2^63, whatever the two threads do from a new queue
-- on: the pending bytes are exactly those of the blocks that are queued or in flight. They, their
-- published copy and the high-water mark stay within the budget.
pub run-WithinBudget :
    {W : Type 0} (writer : SbfWriter W) (w : W) (budget : ℕ) (has_callback : Bool)
    (events : List Event)
    → budget < 2 ^ 63
    → AllSized events
    → WithinBudget budget (run writer events (new_queue w budget has_callback)).1
run-WithinBudget writer w budget has_callback events h z =
    run-from writer budget events (new_queue w budget has_callback) h z (record {
      budget_kept = refl;
      pending = refl;
      bounded = omega arith;
      high_water = omega arith;
      published = refl;
    })

module _ {W : Type 0} where
  -- What an offered block meets.
  pub record Offered (b : Block) (budget : ℕ) (s : SbfWriteQueue W) (r : Bool × SbfWriteQueue W)
      : Type 0 where
    pub taken_iff : r.0 ≡ (
        not s.failed
        && (not (s.stop || s.closed)
            && leb (flight_bytes s.in_flight + total_bytes s.queue + length b) budget))
    pub refused_known : r.0 ≡ false → (r.1.failed || (s.stop || s.closed)) ≡ true
    pub refused_kept : r.0 ≡ false → r.1.queue ≡ s.queue
    pub taken_last : r.0 ≡ true → r.1.queue ≡ s.queue ++ (b ∷ [])

-- A block that is not empty is taken exactly if the queue has not failed or been stopped and the block
-- fits the budget beside the blocks held. A block that is refused leaves the queued blocks as they are,
-- and the queue failed or stopped: no block is dropped unseen.
pub enqueue-Offered :
    {W : Type 0} (x : ℕ) (xs : List ℕ) (budget : ℕ) (s : SbfWriteQueue W)
    → budget < 2 ^ 63
    → length (x ∷ xs) < 2 ^ 63
    → WithinBudget budget s
    → Offered (x ∷ xs) budget s (enqueue (x ∷ xs) s)
unfolding enqueue fail
enqueue-Offered x xs budget s h z k = record {
  taken_iff = ground (arith, k);
  refused_known = ground (arith, k);
  refused_kept = ground (arith, k);
  taken_last = ground (arith, k);
}
