-- ===== src/Common/BoundedQueue/Drain.antt =====
-- common/include/bounded_queue.h hands over what was pushed, and ends after a close.
use amiga_drivers.Prelude.{
  ℕ, ◌≤◌, ◌≡◌, refl, ap, ◌∙◌, true, List, [], ◌∷◌, ◌++◌, length, if◌then◌else◌,
}
use amiga_drivers.Common.BoundedQueue.{
  BoundedQueue, Pop, Push, QueueCall, try_push, push_wait_for, push_blocking, try_pop, pop, close,
}

-- What a run has put in and taken out, with the queue after it.
pub record Traffic (A : Type 0) : Type 0 where
  pub pushed : List A
  pub popped : List A
  pub queue : BoundedQueue A

module _ {A : Type 0} where
  abbrev popped_item : Pop A → List A
  popped_item (Pop.got x) = x ∷ []
  popped_item _ = []

  abbrev pushed_item : A → Push → List A
  pushed_item x Push.taken = x ∷ []
  pushed_item x _ = []

  unfoldable pub call : QueueCall A → BoundedQueue A → Traffic A
  call (QueueCall.try_push_call x) q =
      let r = try_push x q in
      record { pushed = if r.0 then x ∷ [] else []; popped = []; queue = r.1 }
  call (QueueCall.push_wait_call x) q =
      let r = push_wait_for x q in
      record { pushed = if r.0 then x ∷ [] else []; popped = []; queue = r.1 }
  call (QueueCall.push_blocking_call x) q =
      let r = push_blocking x q in record { pushed = pushed_item x r.0; popped = []; queue = r.1 }
  call QueueCall.try_pop_call q =
      let r = try_pop q in record { pushed = []; popped = popped_item r.0; queue = r.1 }
  call QueueCall.pop_call q =
      let r = pop q in record { pushed = []; popped = popped_item r.0; queue = r.1 }
  call QueueCall.close_call q = record { pushed = []; popped = []; queue = close q }

  unfoldable pub run : List (QueueCall A) → BoundedQueue A → Traffic A
  run [] q = record { pushed = []; popped = []; queue = q }
  run (c ∷ cs) q =
      let first = call c q in
      let later = run cs first.queue in
      record {
        pushed = first.pushed ++ later.pushed;
        popped = first.popped ++ later.popped;
        queue = later.queue;
      }

  -- Nothing is lost, made up or reordered, and the capacity holds.
  pub record Faithful (q : BoundedQueue A) (t : Traffic A) : Type 0 where
    pub in_order : q.items ++ t.pushed ≡ t.popped ++ t.queue.items
    pub same_capacity : t.queue.capacity ≡ q.capacity
    pub within : length q.items ≤ q.capacity → length t.queue.items ≤ q.capacity
    pub stays_closed : q.closed ≡ true → t.queue.closed ≡ true
    pub none_after_close : q.closed ≡ true → t.pushed ≡ []

  -- As many pops as there are items.
  abbrev pub pop_calls : List A → List (QueueCall A)
  pop_calls [] = []
  pop_calls (x ∷ xs) = QueueCall.pop_call ∷ pop_calls xs

  drain_items :
      (xs : List A) (capacity : ℕ)
      → run (pop_calls xs) (record { capacity = capacity; items = xs; closed = true }) ≡ record {
        pushed = [];
        popped = xs;
        queue = record { capacity = capacity; items = []; closed = true };
      }
  unfolding run call pop
  drain_items [] capacity = refl
  drain_items (x ∷ xs) capacity =
      ap (λ t. record { pushed = t.pushed; popped = x ∷ t.popped; queue = t.queue })
        (drain_items xs capacity)

-- A consumer of a closed queue never waits: as many pops as there are items hand out all of them in order,
-- and the next pop says that the queue has ended.
pub pop_until_ended :
    {A : Type 0} (q : BoundedQueue A)
    → q.closed ≡ true
    → ((run (pop_calls q.items) q).popped ≡ q.items)
      × ((pop (run (pop_calls q.items) q).queue).0 ≡ Pop.ended)
unfolding pop
pop_until_ended q c =
    let d : run (pop_calls q.items) q ≡ record {
      pushed = [];
      popped = q.items;
      queue = record { capacity = q.capacity; items = []; closed = true };
    } =
      ap
        (λ b.
          run (pop_calls q.items) (record { capacity = q.capacity; items = q.items; closed = b }))
        c
      ∙ drain_items q.items q.capacity in
    (ap (λ t. t.popped) d, ap (λ t. (pop t.queue).0) d)
