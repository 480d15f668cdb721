-- ===== src/Common/BoundedQueue.antt =====
-- common/include/bounded_queue.h: the queue between a producer and a consumer that may block. The lock
-- makes each call one step. A call that has to wait takes the step once its condition holds: `waits` says
-- that it does not hold yet. A wake-up changes no state and is left out.
pub mod Drain
mod Tests
use amiga_drivers.Prelude.{
  ℕ, Bool, true, false, not, ◌||◌, List, [], ◌∷◌, ◌++◌, length, ltb, ◌==◌, if◌then◌else◌,
}

pub record BoundedQueue (A : Type 0) : Type 0 where
  pub capacity : ℕ
  pub items : List A
  pub closed : Bool

-- What a pop that may block returns.
pub data Pop (A : Type 0) : Type 0 where
  got : A → Pop A
  ended : Pop A
  waits : Pop A

-- What a push that may block returns.
pub data Push : Type 0 where
  taken : Push
  turned_away : Push
  push_waits : Push

module _ {A : Type 0} where
  abbrev pub new_queue : ℕ → BoundedQueue A
  new_queue capacity = record {
    capacity = if capacity == 0 then 1 else capacity;
    items = [];
    closed = false;
  }

  unfoldable pub try_push : A → BoundedQueue A → Bool × BoundedQueue A
  try_push item q =
      if q.closed || not (ltb (length q.items) q.capacity)
      then (false, q)
      else (true, record q { items = q.items ++ (item ∷ []) })

  -- Where the time has run out, the predicate is tested for the last time.
  unfoldable pub push_wait_for : A → BoundedQueue A → Bool × BoundedQueue A
  push_wait_for item q =
      if not (q.closed || ltb (length q.items) q.capacity)
      then (false, q)
      else if q.closed
      then (false, q)
      else (true, record q { items = q.items ++ (item ∷ []) })

  unfoldable pub push_blocking : A → BoundedQueue A → Push × BoundedQueue A
  push_blocking item q =
      if not (q.closed || ltb (length q.items) q.capacity)
      then (Push.push_waits, q)
      else if q.closed
      then (Push.turned_away, q)
      else (Push.taken, record q { items = q.items ++ (item ∷ []) })

  -- `out` keeps its value where there is no item.
  unfoldable pub try_pop : BoundedQueue A → Pop A × BoundedQueue A
  try_pop q = elim q.items [
    | [] ↦ (Pop.ended, q)
    | x ∷ rest ↦ (Pop.got x, record q { items = rest })
  ]

  unfoldable pub pop : BoundedQueue A → Pop A × BoundedQueue A
  pop q = elim q.items [
    | [] ↦ if q.closed then (Pop.ended, q) else (Pop.waits, q)
    | x ∷ rest ↦ (Pop.got x, record q { items = rest })
  ]

  unfoldable pub close : BoundedQueue A → BoundedQueue A
  close q = record q { closed = true }

-- One call of either thread.
pub data QueueCall (A : Type 0) : Type 0 where
  try_push_call : A → QueueCall A
  push_wait_call : A → QueueCall A
  push_blocking_call : A → QueueCall A
  try_pop_call : QueueCall A
  pop_call : QueueCall A
  close_call : QueueCall A
