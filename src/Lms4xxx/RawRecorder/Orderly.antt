-- ===== src/Lms4xxx/RawRecorder/Orderly.antt =====
-- What every step of the recorder of lms4xxx_driver/src/raw_recorder.cpp keeps of its files.
use amiga_drivers.Prelude.{
  length-take_le, List-cases, ℕ, suc, ◌+◌, ◌-◌, ◌^◌, ◌≡◌, refl, Bool, true, false, ◌||◌, Bool-cases,
  inl, inr, List, [], ◌∷◌, ◌++◌, All, All-append, length, length-append, take, append-nil, ltb,
  ◌==◌, arith,
}
use amiga_drivers.Common.BoundedQueue.{try_pop, close}
use amiga_drivers.Lms4xxx.RawSplit.{
  RawRecord, Row, new_recorder, Disk, RawRecorder, max_offset, ◌then_io◌, fail, write_bin,
  write_row, close_split, open_split, is_full, access,
}
use amiga_drivers.Lms4xxx.RawRecorder.{
  start, RecorderEvent, rotate, append_record, append, end_loop, write_next, flush, on_frame, stop,
  step, run,
}
use amiga_drivers.Lms4xxx.RawRecorder.Index.{
  GoodSplit, GoodSplit-bytes, GoodSplit-telegram, HasRoom,
}
use amiga_drivers.Lms4xxx.RawRecorder.Keeps.{Keeps, close_split-Keeps, Opened, open_split-Opened}

pub record Filed (s : RawRecorder) : Type 0 where
  pub now : GoodSplit s.max_file_bytes s.current
  pub earlier : All (GoodSplit s.max_file_bytes) s.finished

-- The counts of the current split are those of its files.
pub record AtEnd (s : RawRecorder) : Type 0 where
  pub counted_bytes : s.split_bytes ≡ length s.current.bin
  pub counted_rows : s.split_frames ≡ length s.current.rows

module _ (disk : Disk) where
  -- How the end of `Append` may leave the files and the counts.
  record Appended (r : RawRecord) (s t : RawRecorder) (ok : Bool) : Type 0 where
    max_file_bytes : t.max_file_bytes ≡ s.max_file_bytes
    finished : t.finished ≡ s.finished
    good :
        HasRoom s.max_file_bytes s.current (length r.bytes)
        → GoodSplit s.max_file_bytes s.current
        → GoodSplit s.max_file_bytes t.current
    counted : ok ≡ true → AtEnd t

  append_record-Appended :
      (r : RawRecord) (s : RawRecorder)
      → AtEnd s
      → Appended r s (append_record disk r s).1 (append_record disk r s).0
  unfolding append_record write_bin write_row
  append_record-Appended r s e =
      let row : Row = record { offset = s.split_bytes; count = length r.bytes; telegram = r } in
      elim (Bool-cases (ltb (max_offset - s.split_bytes) (length r.bytes))) [
        | inl over ↦ record {
          max_file_bytes = ground (arith, over);
          finished = ground (arith, over);
          good = λ h g. ground (arith, over, g);
          counted = ground (arith, over);
        }
        | inr fits ↦ elim (Bool-cases (disk.succeeds s.accesses)) [
          | inr tears ↦ record {
            max_file_bytes = ground (arith, fits, tears);
            finished = ground (arith, fits, tears);
            good = λ h g.
                GoodSplit-bytes s.max_file_bytes s.current _ (take (disk.torn s.accesses) r.bytes)
                  (length r.bytes) (ground (arith, fits, tears)) (ground (arith, fits, tears))
                  (length-take_le (disk.torn s.accesses) r.bytes) h g;
            counted = ground (arith, fits, tears);
          }
          | inl writes ↦ elim (Bool-cases (disk.succeeds (suc s.accesses))) [
            | inr loses ↦ record {
              max_file_bytes = ground (arith, fits, writes, loses);
              finished = ground (arith, fits, writes, loses);
              good = λ h g.
                  GoodSplit-bytes s.max_file_bytes s.current _ r.bytes (length r.bytes)
                    (ground (arith, fits, writes, loses))
                    (ground (arith, fits, writes, loses, append-nil s.current.rows)) (omega arith) h
                    g;
              counted = ground (arith, fits, writes, loses);
            }
            | inl indexes ↦ record {
              max_file_bytes = ground (arith, fits, writes, indexes);
              finished = ground (arith, fits, writes, indexes);
              good = λ h g.
                  GoodSplit-telegram s.max_file_bytes s.current _ r
                    (ground (arith, fits, writes, indexes))
                    (ground (arith, fits, writes, indexes, e.counted_bytes)) h g;
              counted = λ _. record {
                counted_bytes =
                    ground (arith, fits, writes, indexes, e, length-append s.current.bin r.bytes);
                counted_rows =
                    ground
                      (arith, fits, writes, indexes, e, length-append s.current.rows (row ∷ []));
              };
            }
          ]
        ]
      ]

  Filed-Keeps : (s t : RawRecorder) → Keeps s t → Filed s → Filed t
  Filed-Keeps s t k f = record {
    now = record {
      found = ground (arith, k.bin, k.rows, f.now.found);
      sized = ground (arith, k.bin, k.rows, k.max_file_bytes, f.now.sized);
    };
    earlier = ground (arith, k.finished, k.max_file_bytes, f.earlier);
  }

  AtEnd-Keeps : (s t : RawRecorder) → Keeps s t → AtEnd s → AtEnd t
  AtEnd-Keeps s t k e = record {
    counted_bytes = ground (arith, k, e);
    counted_rows = ground (arith, k, e);
  }

  -- A result whose files are in order, and whose counts are too if it is a success.
  abbrev Sound : Bool × RawRecorder → Type 0
  Sound q = Filed q.1 × (q.0 ≡ true → AtEnd q.1)

  Opened-Found :
      (u t : RawRecorder)
      → Opened u t
      → All (GoodSplit u.max_file_bytes) u.finished
      → Filed t × AtEnd t
  Opened-Found u t o earlier = (
    record {
      now = record { found = ground (arith, o.bin, o.rows); sized = ground (arith, o.bin, o.rows) };
      earlier = ground (arith, o.finished, o.max_file_bytes, earlier);
    },
    record { counted_bytes = ground (arith, o); counted_rows = ground (arith, o) },
  )

  Opened-Filed :
      (s u t : RawRecorder)
      → u.finished ≡ s.finished ++ (s.current ∷ [])
      → u.max_file_bytes ≡ s.max_file_bytes
      → Opened u t
      → Filed s
      → Filed t × AtEnd t
  Opened-Filed s u t e m o f = Opened-Found u t o (
      ground (
        arith,
        e,
        m,
        All-append (GoodSplit s.max_file_bytes) s.finished (s.current ∷ []) f.earlier (f.now, tt),
      ))

  rotate-Sound :
      (s : RawRecorder)
      → Filed s
      → Sound (rotate disk s) × ((rotate disk s).0 ≡ true → (rotate disk s).1.split_frames ≡ 0)
  unfolding rotate
  rotate-Sound s f =
      let closed = close_split disk s in
      let g = Filed-Keeps s closed (close_split-Keeps disk s) f in
      let next = record closed {
        split_index = suc closed.split_index;
        finished = closed.finished ++ (closed.current ∷ []);
      } in
      let o = open_split-Opened disk next in
      let h = Opened-Filed closed next (open_split disk next).1 refl refl o g in
      elim (Bool-cases closed.failed) [
        | inl e ↦ ground (arith, e, g)
        | inr e ↦ elim (Bool-cases (closed.split_index == 2 ^ 64 - 1)) [
          | inl d ↦ ground (arith, e, d, g)
          | inr d ↦ (
            (ground (arith, e, d, h.0), λ _. ground (arith, e, d, h.1)),
            λ _. ground (arith, e, d, o.split_frames),
          )
        ]
      ]

  append_record-Sound :
      (r : RawRecord) (s : RawRecorder)
      → Filed s
      → AtEnd s
      → HasRoom s.max_file_bytes s.current (length r.bytes)
      → Sound (append_record disk r s)
  append_record-Sound r s f e h =
      let a = append_record-Appended r s e in
      (
        record {
          now = ground (arith, a.max_file_bytes, a.good h f.now);
          earlier = ground (arith, a.max_file_bytes, a.finished, f.earlier);
        },
        a.counted,
      )

  append-Sound : (r : RawRecord) (s : RawRecorder) → Filed s → AtEnd s → Sound (append disk r s)
  unfolding append
  append-Sound r s f e =
      let n = length r.bytes in
      elim (Bool-cases ((n == 0) || ltb max_offset n)) [
        | inl bad ↦ ground (arith, bad, f)
        | inr fine ↦ elim (Bool-cases (is_full n s)) [
          | inr room ↦
              ground (arith, fine, room, append_record-Sound r s f e (ground (arith, room, e)))
          | inl full ↦
              let q = rotate disk s in
              let sound = rotate-Sound s f in
              elim (Bool-cases q.0) [
                | inr lost ↦ ground (arith, fine, full, lost, sound.0.0)
                | inl went ↦
                    let at = sound.0.1 went in
                    ground (
                      arith,
                      fine,
                      full,
                      went,
                      append_record-Sound r q.1 sound.0.0 at
                          (ground (arith, at.counted_rows, sound.1 went)),
                    )
              ]
        ]
      ]

  -- What holds of the recorder between two steps.
  abbrev pub Orderly : RawRecorder → Type 0
  Orderly s = Filed s × (s.running ≡ true → AtEnd s)

  close_split-Orderly :
      (s : RawRecorder) → Filed s → s.running ≡ false → Orderly (close_split disk s)
  close_split-Orderly s f off =
      let k = close_split-Keeps disk s in
      (Filed-Keeps s (close_split disk s) k f, ground (arith, k.running, off))

  end_loop-Orderly : (pending : ℕ) (s : RawRecorder) → Filed s → Orderly (end_loop disk pending s)
  unfolding end_loop
  end_loop-Orderly pending s f =
      let t = record s {
        accepting = false;
        running = false;
        queue = record (close s.queue) { items = [] };
        frames_dropped = s.frames_dropped + pending + length s.queue.items;
      } in
      close_split-Orderly t (ground (arith, f)) refl

  write_next-Orderly : (s : RawRecorder) → Orderly s → Orderly (write_next disk s)
  unfolding write_next try_pop fail
  write_next-Orderly s h = elim (Bool-cases s.running) [
    | inr off ↦ ground (arith, off, h)
    | inl on ↦ elim (List-cases s.queue.items) [
      | inl none_left ↦ elim (Bool-cases s.queue.closed) [
        | inl shut ↦ ground (arith, on, none_left, shut, end_loop-Orderly 0 s h.0)
        | inr opened ↦ ground (arith, on, none_left, opened, h)
      ]
      | inr more ↦
          let t = record s { queue = record s.queue { items = more.1.0 } } in
          let q = append disk more.0 t in
          let a = append-Sound more.0 t (ground (arith, h.0)) (ground (arith, h.1 on)) in
          elim (Bool-cases q.0) [
            | inl went ↦ ground (arith, on, more.1.1, went, a)
            | inr lost ↦
                ground
                  (arith, on, more.1.1, lost, end_loop-Orderly 1 (fail q.1) (ground (arith, a.0)))
          ]
    ]
  ]

  flush-Orderly : (s : RawRecorder) → Orderly s → Orderly (flush disk s)
  unfolding flush access fail
  flush-Orderly s h =
      let q = (access disk then_io access disk) s in
      elim (Bool-cases s.running) [
        | inr off ↦ ground (arith, off, h)
        | inl on ↦ elim (Bool-cases q.0) [
          | inl went ↦ ground (arith, on, went, h)
          | inr lost ↦ ground (arith, on, lost, end_loop-Orderly 0 (fail q.1) (ground (arith, h.0)))
        ]
      ]

  step-Orderly : (e : RecorderEvent) (s : RawRecorder) → Orderly s → Orderly (step disk e s)
  unfolding step on_frame stop fail
  step-Orderly (RecorderEvent.frame_event r) s h = ground (arith, h)
  step-Orderly RecorderEvent.write_event s h = write_next-Orderly s h
  step-Orderly RecorderEvent.flush_event s h = flush-Orderly s h
  step-Orderly RecorderEvent.stop_event s h = ground (arith, h)

  run-Orderly : (es : List RecorderEvent) (s : RawRecorder) → Orderly s → Orderly (run disk es s)
  unfolding run
  run-Orderly [] s h = h
  run-Orderly (e ∷ es) s h = run-Orderly es (step disk e s) (step-Orderly e s h)

  start-Orderly : (s : RawRecorder) → s.running ≡ false → Filed s → Orderly (start disk s).1
  unfolding start access fail
  start-Orderly s off f =
      let s1 = (access disk s).1 in
      let s2 = (access disk s1).1 in
      let q = open_split disk s2 in
      let o = open_split-Opened disk s2 in
      let now = Opened-Found s2 q.1 o (ground (arith, f.earlier)) in
      let stopped = λ (t : RawRecorder) (h : Filed t) (r : t.running ≡ false).
        close_split-Orderly (record (fail t) { queue = close t.queue }) (ground (arith, h))
          (ground (arith, r)) in
      elim (Bool-cases (disk.succeeds s.accesses)) [
        | inr lost ↦ ground (arith, lost, stopped s1 (ground (arith, f)) (ground (arith, off)))
        | inl went ↦ elim (Bool-cases (disk.succeeds (suc s.accesses))) [
          | inr lost ↦
              ground (arith, went, lost, stopped s2 (ground (arith, f)) (ground (arith, off)))
          | inl ready ↦ elim (Bool-cases q.0) [
            | inr lost ↦
                ground
                  (arith, went, ready, lost, stopped q.1 now.0 (ground (arith, o.running, off)))
            | inl opens ↦ ground (arith, went, ready, opens, now)
          ]
        ]
      ]

-- Whatever the disk does, whatever is received and however the threads take turns: after every step each
-- row of each index finds the bytes of its telegram in the split's file at the offset and with the length
-- that it says, and no file is longer than the limit that is set, unless it holds at most one whole
-- telegram.
pub run-Filed :
    (disk : Disk) (capacity limit : ℕ) (es : List RecorderEvent)
    → Filed (run disk es (start disk (new_recorder capacity limit)).1)
run-Filed disk capacity limit es =
    let s = new_recorder capacity limit in
    let empty : Filed s = record {
      now = record { found = tt; sized = ground arith };
      earlier = tt;
    } in
    (run-Orderly disk es (start disk s).1 (start-Orderly disk s refl empty)).0
