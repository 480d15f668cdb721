-- ===== src/Asterx/SbfWriteQueue/Order.antt =====
-- The blocks that asterx_driver/src/sbf_write_queue.cpp takes reach the writer, each once and in order.
use amiga_drivers.Prelude.{
  ℕ, ◌≡◌, refl, sym, ap, subst, ◌∙◌, Bool, true, false, Option, none, some, List, [], ◌∷◌, ◌++◌,
  append_assoc, append-nil, arith, Bool-cases, inl, inr,
}
use amiga_drivers.Asterx.SbfWriteQueue.{
  Block, SbfWriter, SbfWriteQueue, Event, new_queue, start, fail, enqueue, take_front, write_one,
  finish_with, finish_write, writer_loop, write_rest, drain_queue, close_writer, close, step, run,
}

abbrev carried : Option Block → List Block
carried none = []
carried (some b) = b ∷ []

module _ {W : Type 0} where
  -- Taken and not yet given to the writer.
  abbrev held : SbfWriteQueue W → List Block
  held s = carried s.in_flight ++ s.queue

  module _ (writer : SbfWriter W) where
    -- The writer after the blocks, one after the other.
    abbrev pub write_all : List Block → W → W
    write_all [] w = w
    write_all (b ∷ rest) w = write_all rest (writer.write_block w b).1

    write_all-append :
        (xs : List Block) (b : Block) (w : W)
        → write_all (xs ++ (b ∷ [])) w ≡ (writer.write_block (write_all xs w) b).1
    write_all-append [] b w = refl
    write_all-append (x ∷ xs) b w = write_all-append xs b (writer.write_block w x).1

    -- `taken` are the blocks that were taken so far, from the writer `w`.
    record Kept (w : W) (taken : List Block) (s : SbfWriteQueue W) : Type 0 where
      gone : List Block
      split : taken ≡ gone ++ held s
      wrote : s.write_failed ≡ false → s.writer ≡ write_all gone w
      latched : s.write_failed ≡ true → s.failed ≡ true
      idle : s.joinable ≡ false → s.in_flight ≡ none

    same :
        (w : W) (taken : List Block) (s : SbfWriteQueue W) → Kept w taken s → Kept w (taken ++ []) s
    same w taken s k = subst (λ t. Kept w t s) (sym (append-nil taken)) k

    enqueue-Kept :
        (w : W) (taken : List Block) (x : ℕ) (xs : List ℕ) (s : SbfWriteQueue W)
        → Kept w taken s
        → Kept w (taken ++ (step writer (Event.enqueue_block (x ∷ xs)) s).0) (enqueue (x ∷ xs) s).1
    unfolding step enqueue fail
    enqueue-Kept w taken x xs s k = record {
      gone = k.gone;
      split = ground (
        arith,
        k.split,
        append-nil taken,
        append_assoc k.gone (held s) ((x ∷ xs) ∷ []),
        append_assoc (carried s.in_flight) s.queue ((x ∷ xs) ∷ []),
      );
      wrote = ground (arith, k.wrote);
      latched = ground (arith, k.latched);
      idle = ground (arith, k.idle);
    }

    take_front-Kept :
        (w : W) (taken : List Block) (s : SbfWriteQueue W)
        → Kept w taken s
        → Kept w taken (take_front s)
    unfolding take_front
    take_front-Kept w taken s k = record {
      gone = k.gone;
      split = ground (arith, k.split);
      wrote = ground (arith, k.wrote);
      latched = ground (arith, k.latched);
      idle = ground (arith, k.idle);
    }

    start-Kept :
        (w : W) (taken : List Block) (s : SbfWriteQueue W) → Kept w taken s → Kept w taken (start s)
    unfolding start
    start-Kept w taken s k = record {
      gone = k.gone;
      split = ground (arith, k.split);
      wrote = ground (arith, k.wrote);
      latched = ground (arith, k.latched);
      idle = ground (arith, k.idle);
    }

    -- What a write of a block leaves, whatever the writer says.
    record Wrote (w : W) (gone : List Block) (b : Block) (s t : SbfWriteQueue W) : Type 0 where
      queue : t.queue ≡ s.queue
      wrote : t.write_failed ≡ false → t.writer ≡ write_all (gone ++ (b ∷ [])) w
      latched : t.write_failed ≡ true → t.failed ≡ true

    write_one-Wrote :
        (w : W) (gone : List Block) (b : Block) (s : SbfWriteQueue W)
        → (s.write_failed ≡ false → s.writer ≡ write_all gone w)
        → (s.write_failed ≡ true → s.failed ≡ true)
        → Wrote w gone b s (write_one writer b s).1
    unfolding write_one fail
    write_one-Wrote w gone b s h l = record {
      queue = ground arith;
      wrote = ground (arith, h, write_all-append gone b w);
      latched = ground (arith, l);
    }

    finish_with-Kept :
        (w : W) (taken gone : List Block) (o : Option Block) (s : SbfWriteQueue W)
        → taken ≡ gone ++ (carried o ++ s.queue)
        → (s.write_failed ≡ false → s.writer ≡ write_all gone w)
        → (s.write_failed ≡ true → s.failed ≡ true)
        → s.in_flight ≡ o
        → Kept w taken (finish_with writer o s)
    unfolding finish_with
    finish_with-Kept w taken gone none s e h l f = record {
      gone = gone;
      split = ground (arith, e, f);
      wrote = h;
      latched = l;
      idle = λ _. f;
    }
    finish_with-Kept w taken gone (some b) s e h l f =
        let r = write_one-Wrote w gone b s h l in
        record {
          gone = gone ++ (b ∷ []);
          split =
              e
              ∙ sym (append_assoc gone (b ∷ []) s.queue)
              ∙ ap (λ q. (gone ++ (b ∷ [])) ++ q) (sym r.queue);
          wrote = r.wrote;
          latched = r.latched;
          idle = λ _. refl;
        }

    finish_write-Kept :
        (w : W) (taken : List Block) (s : SbfWriteQueue W)
        → Kept w taken s
        → Kept w taken (finish_write writer s)
    finish_write-Kept w taken s k =
        finish_with-Kept w taken k.gone s.in_flight s k.split k.wrote k.latched refl

    -- Nothing is left to write.
    record Drained (w : W) (taken : List Block) (s : SbfWriteQueue W) : Type 0 where
      wrote : s.write_failed ≡ false → s.writer ≡ write_all taken w
      latched : s.write_failed ≡ true → s.failed ≡ true

    -- The loop keeps the queue in step with what it has left.
    writer_loop-Drained :
        (w : W) (taken gone : List Block) (rest : List Block) (s : SbfWriteQueue W)
        → taken ≡ gone ++ rest
        → (s.write_failed ≡ false → s.writer ≡ write_all gone w)
        → (s.write_failed ≡ true → s.failed ≡ true)
        → Drained w taken (writer_loop writer rest s)
    unfolding writer_loop finish_with
    writer_loop-Drained w taken gone [] s e h l = record {
      wrote = ground (arith, h, e, append-nil gone);
      latched = l;
    }
    writer_loop-Drained w taken gone (b ∷ rest) s e h l =
        let r = write_one-Wrote w gone b (record s { in_flight = some b; queue = rest }) h l in
        writer_loop-Drained w taken (gone ++ (b ∷ [])) rest _
          (e ∙ sym (append_assoc gone (b ∷ []) rest)) r.wrote r.latched

    write_rest-Drained :
        (w : W) (taken gone : List Block) (rest : List Block) (s : SbfWriteQueue W)
        → taken ≡ gone ++ rest
        → (s.write_failed ≡ false → s.writer ≡ write_all gone w)
        → (s.write_failed ≡ true → s.failed ≡ true)
        → Drained w taken (write_rest writer rest s)
    unfolding write_rest
    write_rest-Drained w taken gone [] s e h l = record {
      wrote = ground (arith, h, e, append-nil gone);
      latched = l;
    }
    write_rest-Drained w taken gone (b ∷ rest) s e h l =
        let r = write_one-Wrote w gone b s h l in
        write_rest-Drained w taken (gone ++ (b ∷ [])) rest _
          (e ∙ sym (append_assoc gone (b ∷ []) rest)) r.wrote r.latched

    finish_with_rest :
        (o : Option Block) (s : SbfWriteQueue W)
        → s.in_flight ≡ o
        → ((finish_with writer o s).in_flight ≡ none) × ((finish_with writer o s).queue ≡ s.queue)
    unfolding finish_with write_one fail
    finish_with_rest none s f = (f, refl)
    finish_with_rest (some b) s f = (refl, ground arith)

    drain_queue-Drained :
        (w : W) (taken : List Block) (s : SbfWriteQueue W)
        → Kept w taken s
        → Drained w taken (drain_queue writer s)
    unfolding drain_queue
    drain_queue-Drained w taken s k = elim (Bool-cases s.joinable) [
      | inl running ↦
          let f = finish_with_rest s.in_flight s refl in
          let t = finish_write-Kept w taken s k in
          let d =
            writer_loop-Drained w taken t.gone s.queue (finish_write writer s)
              (ground (arith, t.split, f)) t.wrote t.latched in
          ground (arith, running, d)
      | inr never ↦
          let d =
            write_rest-Drained w taken k.gone s.queue
              (record s { queue = []; pending_bytes = 0; pending_atomic = 0 })
              (ground (arith, k.split, k.idle, never)) k.wrote k.latched in
          ground (arith, never, d)
    ]

    step-Kept :
        (w : W) (taken : List Block) (e : Event) (s : SbfWriteQueue W)
        → Kept w taken s
        → Kept w (taken ++ (step writer e s).0) (step writer e s).1
    unfolding step
    step-Kept w taken Event.start_thread s k = same w taken _ (start-Kept w taken s k)
    step-Kept w taken (Event.enqueue_block []) s k = same w taken _ k
    step-Kept w taken (Event.enqueue_block (x ∷ xs)) s k = enqueue-Kept w taken x xs s k
    step-Kept w taken Event.take_block s k = same w taken _ (take_front-Kept w taken s k)
    step-Kept w taken Event.finish_block s k = same w taken _ (finish_write-Kept w taken s k)

    run-Kept :
        (w : W) (taken : List Block) (es : List Event) (s : SbfWriteQueue W)
        → Kept w taken s
        → Kept w (taken ++ (run writer es s).0) (run writer es s).1
    unfolding run
    run-Kept w taken [] s k = same w taken s k
    run-Kept w taken (e ∷ es) s k =
        let first = step writer e s in
        subst (λ t. Kept w t (run writer es first.1).1)
          (append_assoc taken first.0 (run writer es first.1).0)
          (run-Kept w (taken ++ first.0) es first.1 (step-Kept w taken e s k))

    step_closed : (e : Event) (s : SbfWriteQueue W) → (step writer e s).1.closed ≡ s.closed
    unfolding step start enqueue take_front finish_with write_one fail
    step_closed Event.start_thread s = ground arith
    step_closed (Event.enqueue_block []) s = refl
    step_closed (Event.enqueue_block (x ∷ xs)) s = ground arith
    step_closed Event.take_block s = ground arith
    step_closed Event.finish_block s = ground arith

    run_closed : (es : List Event) (s : SbfWriteQueue W) → (run writer es s).1.closed ≡ s.closed
    unfolding run
    run_closed [] s = refl
    run_closed (e ∷ es) s = run_closed es (step writer e s).1 ∙ step_closed e s

    -- A verdict without a failure, and the file as it should be.
    pub record Complete (w : W) (taken : List Block) (s : SbfWriteQueue W) : Type 0 where
      pub file : s.writer ≡ (writer.close (write_all taken w)).1
      pub closed_well : (writer.close (write_all taken w)).0 ≡ true

    close-Complete :
        (w : W) (taken : List Block) (s : SbfWriteQueue W)
        → Kept w taken s
        → s.closed ≡ false
        → (close writer s).0 ≡ true
        → Complete w taken (close writer s).1
    unfolding close close_writer fail
    close-Complete w taken s k c v =
        let d =
          drain_queue-Drained w taken (record s { stop = true })
            (record {
              gone = k.gone;
              split = k.split;
              wrote = k.wrote;
              latched = k.latched;
              idle = k.idle;
            }) in
        record { file = ground (arith, d, c, v); closed_well = ground (arith, d, c, v) }

-- Whatever the two threads do from a new queue on, if `Close` then reports no failure, the file is what
-- the writer makes of exactly the blocks that were taken, each once and in the order in which they were
-- taken, and then of a close that succeeds.
pub close_after_run :
    {W : Type 0} (writer : SbfWriter W) (w : W) (max_pending_bytes : ℕ) (has_callback : Bool)
    (events : List Event)
    → (close writer (run writer events (new_queue w max_pending_bytes has_callback)).1).0 ≡ true
    → Complete writer w
        (run writer events (new_queue w max_pending_bytes has_callback)).0
        (close writer (run writer events (new_queue w max_pending_bytes has_callback)).1).1
close_after_run writer w max_pending_bytes has_callback events v =
    let s = new_queue w max_pending_bytes has_callback in
    close-Complete writer w (run writer events s).0 (run writer events s).1
      (run-Kept writer w [] events s (record {
        gone = [];
        split = refl;
        wrote = λ _. refl;
        latched = λ e. absurd (cc e);
        idle = λ _. refl;
      }))
      (run_closed writer events s) v
