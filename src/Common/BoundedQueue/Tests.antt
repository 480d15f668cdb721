-- ===== src/Common/BoundedQueue/Tests.antt =====
-- The theorems on common/include/bounded_queue.h at concrete inputs.
use amiga_drivers.Prelude.{ℕ, ◌≡◌, refl, true, List, [], ◌∷◌}
use amiga_drivers.Common.BoundedQueue.{BoundedQueue, Pop, QueueCall, pop}
use amiga_drivers.Common.BoundedQueue.Drain.{run, pop_calls, pop_until_ended}

-- The third push finds the queue full, and the last one finds it closed.
abbrev calls : List (QueueCall ℕ)
calls =
    QueueCall.try_push_call 1
    ∷ QueueCall.push_wait_call 2
    ∷ QueueCall.try_push_call 3
    ∷ QueueCall.pop_call
    ∷ QueueCall.close_call
    ∷ QueueCall.push_blocking_call 4
    ∷ QueueCall.try_pop_call
    ∷ []

abbrev closed_queue : BoundedQueue ℕ
closed_queue = record { capacity = 3; items = 7 ∷ 8 ∷ []; closed = true }

pop_until_ended_example :
    ((run (pop_calls (7 ∷ 8 ∷ [])) closed_queue).popped ≡ 7 ∷ 8 ∷ [])
    × ((pop (run (pop_calls (7 ∷ 8 ∷ [])) closed_queue).queue).0 ≡ Pop.ended)
pop_until_ended_example = pop_until_ended closed_queue refl
