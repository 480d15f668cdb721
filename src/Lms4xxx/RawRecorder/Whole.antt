-- ===== src/Lms4xxx/RawRecorder/Whole.antt =====
-- No frame is lost in lms4xxx_driver/src/raw_recorder.cpp without a failure or a count.
use amiga_drivers.Prelude.{
  ℕ, suc, ◌+◌, ◌≡◌, refl, ap, ◌∙◌, true, false, not, Bool-cases, List-cases, inl, inr, List, [],
  ◌∷◌, ◌++◌, length-append, append-nil, append_assoc, length, ltb, ◌||◌, arith,
}
use amiga_drivers.Common.BoundedQueue.{try_push, try_pop, close}
use amiga_drivers.Lms4xxx.RawSplit.{
  RawRecord, Disk, RawRecorder, ◌then_io◌, fail, access, close_split, open_split,
}
use amiga_drivers.Lms4xxx.RawRecorder.{
  RecorderEvent, append, end_loop, write_next, flush, start, on_frame, stop, step, run,
}
use amiga_drivers.Lms4xxx.RawRecorder.Keeps.{close_split-Keeps, open_split-Opened}
use amiga_drivers.Lms4xxx.RawRecorder.Complete.{
  recorded, stored, bytes_of, Writes, Keeps-Writes, append-Writes,
}

-- The frames that the events bring.
unfoldable pub frames_of : List RecorderEvent → List RawRecord
frames_of [] = []
frames_of (RecorderEvent.frame_event r ∷ es) = r ∷ frames_of es
frames_of (_ ∷ es) = frames_of es

-- Nothing is lost of these frames: the files hold them, but for those still in the queue.
pub record Whole (fs : List RawRecord) (s : RawRecorder) : Type 0 where
  pub frames : recorded s ++ s.queue.items ≡ fs
  pub bytes : stored s ≡ bytes_of (recorded s)
  pub queued : s.frames_queued ≡ length fs
  pub written : s.frames_written ≡ length (recorded s)

-- Unless the recorder says that it failed or dropped a frame.
abbrev pub Honest : List RawRecord → RawRecorder → Type 0
Honest fs s = s.failed ≡ false → s.frames_dropped ≡ 0 → Whole fs s

bytes_of-append : (xs ys : List RawRecord) → bytes_of (xs ++ ys) ≡ bytes_of xs ++ bytes_of ys
bytes_of-append [] ys = refl
bytes_of-append (x ∷ xs) ys =
    ap (λ t. x.bytes ++ t) (bytes_of-append xs ys) ∙ grind (arith, append_assoc)

-- The frames that come to the files leave the queue.
Writes-Whole :
    (rs : List RawRecord) (fs : List RawRecord) (s u t : RawRecorder)
    → s.queue.items ≡ rs ++ t.queue.items
    → recorded u ≡ recorded s
    → stored u ≡ stored s
    → u.frames_queued ≡ s.frames_queued
    → u.frames_written ≡ s.frames_written
    → Writes rs u t
    → Whole fs s
    → Whole fs t
Writes-Whole rs fs s u t e r b n m w h = record {
  frames = ground (arith, w.recorded, e, r, h.frames, append_assoc (recorded s) rs t.queue.items);
  bytes = ground (arith, w.recorded, w.stored, r, b, h.bytes, bytes_of-append (recorded s) rs);
  queued = ground (arith, w.frames_queued, n, h.queued);
  written =
      ground (arith, w.frames_written, w.recorded, r, m, h.written, length-append (recorded s) rs);
}

-- Accesses to the disk are all that happens.
Accessed-Honest :
    (fs : List RawRecord) (s : RawRecorder) (n : ℕ)
    → Honest fs s
    → Honest fs (record s { accesses = n })
Accessed-Honest fs s n h fine whole =
    let w : Whole fs s = h fine whole in
    record { frames = w.frames; bytes = w.bytes; queued = w.queued; written = w.written }

module _ (disk : Disk) where
  end_loop-Honest :
      (pending : ℕ) (fs : List RawRecord) (s : RawRecorder)
      → (pending ≡ 0 → s.queue.items ≡ [] → Honest fs s)
      → Honest fs (end_loop disk pending s)
  unfolding end_loop close
  end_loop-Honest pending fs s h fine whole =
      let t = record s {
        accepting = false;
        running = false;
        queue = record (close s.queue) { items = [] };
        frames_dropped = s.frames_dropped + pending + length s.queue.items;
      } in
      let w = Keeps-Writes t (close_split disk t) (close_split-Keeps disk t) in
      elim (List-cases s.queue.items) [
        | inr more ↦ ground (arith, more.1.1, w.frames_dropped, whole)
        | inl empty ↦
            Writes-Whole [] fs s t (close_split disk t) (ground (arith, w.queue, empty)) refl refl
              refl refl w
              (h (ground (arith, w.frames_dropped, whole)) empty (ground (arith, w.failed fine))
                (ground (arith, w.frames_dropped, whole)))
      ]

  write_next-Honest :
      (fs : List RawRecord) (s : RawRecorder) → Honest fs s → Honest fs (write_next disk s)
  unfolding write_next try_pop fail
  write_next-Honest fs s h = elim (Bool-cases s.running) [
    | inr off ↦ ground (arith, off, h)
    | inl on ↦ elim (List-cases s.queue.items) [
      | inl none_left ↦ elim (Bool-cases s.queue.closed) [
        | inl shut ↦ ground (arith, on, none_left, shut, end_loop-Honest 0 fs s (λ _ _. h))
        | inr opened ↦ ground (arith, on, none_left, opened, h)
      ]
      | inr more ↦
          let u = record s { queue = record s.queue { items = more.1.0 } } in
          let q = append disk more.0 u in
          elim (Bool-cases q.0) [
            | inl went ↦
                let w = append-Writes disk more.0 u went in
                let kept : Honest fs q.1 = λ fine whole.
                  Writes-Whole (more.0 ∷ []) fs s u q.1 (ground (arith, more.1.1, w.queue)) refl
                    refl refl refl w
                    (h (w.failed fine) (ground (arith, w.frames_dropped, whole))) in
                ground (arith, on, more.1.1, went, kept)
            | inr lost ↦ ground (
              arith,
              on,
              more.1.1,
              lost,
              end_loop-Honest 1 fs (fail q.1) (λ z _. absurd (omega (arith, z))),
            )
          ]
    ]
  ]

  flush-Honest : (fs : List RawRecord) (s : RawRecorder) → Honest fs s → Honest fs (flush disk s)
  unfolding flush access fail
  flush-Honest fs s h =
      let q = (access disk then_io access disk) s in
      let broken : Honest fs (fail q.1) = λ fine _. ground (arith, fine) in
      elim (Bool-cases s.running) [
        | inr off ↦ ground (arith, off, h)
        | inl on ↦ elim (Bool-cases q.0) [
          | inl went ↦ ground (arith, on, went, Accessed-Honest fs s (suc (suc s.accesses)) h)
          | inr lost ↦ ground (arith, on, lost, end_loop-Honest 0 fs (fail q.1) (λ _ _. broken))
        ]
      ]

  on_frame-Honest :
      (r : RawRecord) (fs : List RawRecord) (s : RawRecorder)
      → Honest fs s
      → Honest (fs ++ (r ∷ [])) (on_frame r s)
  unfolding on_frame try_push fail close
  on_frame-Honest r fs s h = elim (Bool-cases s.accepting) [
    | inr off ↦ λ fine whole. ground (arith, off, fine, whole)
    | inl on ↦
        elim (Bool-cases (s.queue.closed || not (ltb (length s.queue.items) s.queue.capacity))) [
          | inl full ↦ λ fine whole. ground (arith, on, full, fine, whole)
          | inr room ↦ λ fine whole.
              let w : Whole fs s =
                h (ground (arith, on, room, fine)) (ground (arith, on, room, whole)) in
              record {
                frames =
                    ground
                      (arith, on, room, w.frames, append_assoc (recorded s) s.queue.items (r ∷ []));
                bytes = ground (arith, on, room, w.bytes);
                queued = ground (arith, on, room, w.queued, length-append fs (r ∷ []));
                written = ground (arith, on, room, w.written);
              }
        ]
  ]

  step-Honest :
      (e : RecorderEvent) (fs : List RawRecord) (s : RawRecorder)
      → Honest fs s
      → Honest (fs ++ frames_of (e ∷ [])) (step disk e s)
  unfolding step frames_of stop close
  step-Honest (RecorderEvent.frame_event r) fs s h = on_frame-Honest r fs s h
  step-Honest RecorderEvent.write_event fs s h =
      ground (arith, append-nil fs, write_next-Honest fs s h)
  step-Honest RecorderEvent.flush_event fs s h = ground (arith, append-nil fs, flush-Honest fs s h)
  step-Honest RecorderEvent.stop_event fs s h = λ fine whole.
      let w : Whole fs s = h fine whole in
      record {
        frames = ground (arith, append-nil fs, w.frames);
        bytes = w.bytes;
        queued = ground (arith, append-nil fs, w.queued);
        written = w.written;
      }

  frames_of-cons :
      (e : RecorderEvent) (es : List RecorderEvent)
      → frames_of (e ∷ es) ≡ frames_of (e ∷ []) ++ frames_of es
  unfolding frames_of
  frames_of-cons (RecorderEvent.frame_event r) es = refl
  frames_of-cons RecorderEvent.write_event es = refl
  frames_of-cons RecorderEvent.flush_event es = refl
  frames_of-cons RecorderEvent.stop_event es = refl

  pub run-Honest :
      (es : List RecorderEvent) (fs : List RawRecord) (s : RawRecorder)
      → Honest fs s
      → Honest (fs ++ frames_of es) (run disk es s)
  unfolding run frames_of
  run-Honest [] fs s h = ground (arith, append-nil fs, h)
  run-Honest (e ∷ es) fs s h =
      let more = frames_of (e ∷ []) in
      let rest = run-Honest es (fs ++ more) (step disk e s) (step-Honest e fs s h) in
      ground (arith, frames_of-cons e es, append_assoc fs more (frames_of es), rest)

  close_split-failed : (s : RawRecorder) → s.failed ≡ true → (close_split disk s).failed ≡ true
  close_split-failed s h = (close_split-Keeps disk s).failed h

  pub start-Honest :
      (s : RawRecorder)
      → s.finished ≡ []
      → s.queue.items ≡ []
      → s.frames_queued ≡ 0
      → s.frames_written ≡ 0
      → Honest [] (start disk s).1
  unfolding start access fail
  start-Honest s no_files no_items none_queued none_written =
      let s1 = (access disk s).1 in
      let s2 = (access disk s1).1 in
      let q = open_split disk s2 in
      let o = open_split-Opened disk s2 in
      let broken : (t : RawRecorder)
          → Honest [] (close_split disk (record (fail t) { queue = close t.queue })) =
        λ t fine _.
          ground
            (arith, fine, close_split-failed (record (fail t) { queue = close t.queue }) refl) in
      elim (Bool-cases (disk.succeeds s.accesses)) [
        | inr lost ↦ ground (arith, lost, broken s1)
        | inl went ↦ elim (Bool-cases (disk.succeeds (suc s.accesses))) [
          | inr lost ↦ ground (arith, went, lost, broken s2)
          | inl ready ↦ elim (Bool-cases q.0) [
            | inr lost ↦ ground (arith, went, ready, lost, broken q.1)
            | inl opens ↦ λ _ _. record {
              frames =
                  ground
                    (arith, went, ready, opens, o.rows, o.finished, o.queue, no_files, no_items);
              bytes = ground (arith, went, ready, opens, o.rows, o.bin, o.finished, no_files);
              queued = ground (arith, went, ready, opens, o.frames_queued, none_queued);
              written = ground (
                arith, went, ready, opens, o.rows, o.finished, o.frames_written, no_files,
                none_written,
              );
            }
          ]
        ]
      ]
