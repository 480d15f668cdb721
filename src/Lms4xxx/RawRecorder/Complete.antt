-- ===== src/Lms4xxx/RawRecorder/Complete.antt =====
-- The telegrams and the bytes in the files of lms4xxx_driver/src/raw_recorder.cpp, over all the splits.
use amiga_drivers.Prelude.{
  ℕ, suc, ◌+◌, ◌-◌, ◌^◌, ◌≡◌, refl, ap, ◌∙◌, true, false, ◌||◌, Bool-cases, inl, inr, List, [], ◌∷◌,
  ◌++◌, append-nil, append_assoc, length, ltb, ◌==◌, arith,
}
use amiga_drivers.Lms4xxx.RawSplit.{
  RawRecord, Row, Split, Disk, RawRecorder, max_offset, write_bin, write_row, close_split,
  open_split, is_full,
}
use amiga_drivers.Lms4xxx.RawRecorder.{rotate, append_record, append}
use amiga_drivers.Lms4xxx.RawRecorder.Keeps.{Keeps, close_split-Keeps, Opened, open_split-Opened}

abbrev pub telegrams : List Row → List RawRecord
telegrams [] = []
telegrams (row ∷ rows) = row.telegram ∷ telegrams rows

abbrev pub all_telegrams : List Split → List RawRecord
all_telegrams [] = []
all_telegrams (p ∷ ps) = telegrams p.rows ++ all_telegrams ps

abbrev pub all_bytes : List Split → List ℕ
all_bytes [] = []
all_bytes (p ∷ ps) = p.bin ++ all_bytes ps

abbrev pub bytes_of : List RawRecord → List ℕ
bytes_of [] = []
bytes_of (r ∷ rs) = r.bytes ++ bytes_of rs

-- The telegrams that the index lists, and the bytes of the files one after the other.
abbrev pub recorded : RawRecorder → List RawRecord
recorded s = all_telegrams s.finished ++ telegrams s.current.rows

abbrev pub stored : RawRecorder → List ℕ
stored s = all_bytes s.finished ++ s.current.bin

pub telegrams-append : (xs ys : List Row) → telegrams (xs ++ ys) ≡ telegrams xs ++ telegrams ys
telegrams-append [] ys = refl
telegrams-append (x ∷ xs) ys = ap (λ t. x.telegram ∷ t) (telegrams-append xs ys)

all_telegrams-snoc :
    (ps : List Split) (p : Split)
    → all_telegrams (ps ++ (p ∷ [])) ≡ all_telegrams ps ++ telegrams p.rows
all_telegrams-snoc [] p = append-nil (telegrams p.rows)
all_telegrams-snoc (q ∷ ps) p =
    ap (λ t. telegrams q.rows ++ t) (all_telegrams-snoc ps p) ∙ grind (arith, append_assoc)

all_bytes-snoc : (ps : List Split) (p : Split) → all_bytes (ps ++ (p ∷ [])) ≡ all_bytes ps ++ p.bin
all_bytes-snoc [] p = append-nil p.bin
all_bytes-snoc (q ∷ ps) p = ap (λ t. q.bin ++ t) (all_bytes-snoc ps p) ∙ grind (arith, append_assoc)

-- So many telegrams come to the files, and the rest is the same.
pub record Writes (rs : List RawRecord) (s t : RawRecorder) : Type 0 where
  pub recorded : recorded t ≡ recorded s ++ rs
  pub stored : stored t ≡ stored s ++ bytes_of rs
  pub queue : t.queue ≡ s.queue
  pub frames_dropped : t.frames_dropped ≡ s.frames_dropped
  pub frames_queued : t.frames_queued ≡ s.frames_queued
  pub frames_written : t.frames_written ≡ s.frames_written + length rs
  pub failed : t.failed ≡ false → s.failed ≡ false

pub Keeps-Writes : (s t : RawRecorder) → Keeps s t → Writes [] s t
Keeps-Writes s t k = record {
  recorded = ground (arith, k.rows, k.finished, append-nil (recorded s));
  stored = ground (arith, k.bin, k.finished, append-nil (stored s));
  queue = k.queue;
  frames_dropped = k.frames_dropped;
  frames_queued = k.frames_queued;
  frames_written = ground (arith, k);
  failed = λ h. ground (arith, h, k.failed);
}

Writes-trans :
    (rs : List RawRecord) (s t u : RawRecorder) → Writes [] s t → Writes rs t u → Writes rs s u
Writes-trans rs s t u v w = record {
  recorded = ground (arith, v.recorded, w.recorded, append-nil (recorded s));
  stored = ground (arith, v.stored, w.stored, append-nil (stored s));
  queue = w.queue ∙ v.queue;
  frames_dropped = w.frames_dropped ∙ v.frames_dropped;
  frames_queued = w.frames_queued ∙ v.frames_queued;
  frames_written = ground (arith, v.frames_written, w.frames_written);
  failed = λ h. v.failed (w.failed h);
}

-- The next split is opened.
Opened-Writes :
    (s u t : RawRecorder)
    → u.finished ≡ s.finished ++ (s.current ∷ [])
    → u.queue ≡ s.queue
    → u.frames_dropped ≡ s.frames_dropped
    → u.frames_queued ≡ s.frames_queued
    → u.frames_written ≡ s.frames_written
    → u.failed ≡ s.failed
    → Opened u t
    → Writes [] s t
Opened-Writes s u t e q d n w f o = record {
  recorded = ground (
    arith,
    o.rows,
    o.finished,
    e,
    all_telegrams-snoc s.finished s.current,
    append-nil (all_telegrams s.finished ++ telegrams s.current.rows),
  );
  stored = ground (
    arith,
    o.bin,
    o.finished,
    e,
    all_bytes-snoc s.finished s.current,
    append-nil (all_bytes s.finished ++ s.current.bin),
  );
  queue = o.queue ∙ q;
  frames_dropped = o.frames_dropped ∙ d;
  frames_queued = o.frames_queued ∙ n;
  frames_written = ground (arith, o.frames_written, w);
  failed = λ h. ground (arith, h, o.failed, f);
}

module _ (disk : Disk) where
  rotate-Writes : (s : RawRecorder) → (rotate disk s).0 ≡ true → Writes [] s (rotate disk s).1
  unfolding rotate
  rotate-Writes s went =
      let closed = close_split disk s in
      let next = record closed {
        split_index = suc closed.split_index;
        finished = closed.finished ++ (closed.current ∷ []);
      } in
      let k = Keeps-Writes s closed (close_split-Keeps disk s) in
      let o = open_split-Opened disk next in
      elim (Bool-cases closed.failed) [
        | inl e ↦ ground (arith, went, e)
        | inr e ↦ elim (Bool-cases (closed.split_index == 2 ^ 64 - 1)) [
          | inl d ↦ ground (arith, went, e, d)
          | inr d ↦ ground (
            arith,
            e,
            d,
            Writes-trans [] s closed (open_split disk next).1 k (
                Opened-Writes closed next (open_split disk next).1 refl refl refl refl refl refl o),
          )
        ]
      ]

  append_record-Writes :
      (r : RawRecord) (s : RawRecorder)
      → (append_record disk r s).0 ≡ true
      → Writes (r ∷ []) s (append_record disk r s).1
  unfolding append_record write_bin write_row
  append_record-Writes r s went =
      let row : Row = record { offset = s.split_bytes; count = length r.bytes; telegram = r } in
      elim (Bool-cases (ltb (max_offset - s.split_bytes) (length r.bytes))) [
        | inl over ↦ ground (arith, went, over)
        | inr fits ↦ elim (Bool-cases (disk.succeeds s.accesses)) [
          | inr lost ↦ ground (arith, went, fits, lost)
          | inl writes ↦ elim (Bool-cases (disk.succeeds (suc s.accesses))) [
            | inr lost ↦ ground (arith, went, fits, writes, lost)
            | inl indexes ↦ record {
              recorded = ground (
                arith,
                fits,
                writes,
                indexes,
                telegrams-append s.current.rows (row ∷ []),
                append_assoc (all_telegrams s.finished) (telegrams s.current.rows) (r ∷ []),
              );
              stored = ground (
                arith,
                fits,
                writes,
                indexes,
                append-nil r.bytes,
                append_assoc (all_bytes s.finished) s.current.bin r.bytes,
              );
              queue = ground (arith, fits, writes, indexes);
              frames_dropped = ground (arith, fits, writes, indexes);
              frames_queued = ground (arith, fits, writes, indexes);
              frames_written = ground (arith, fits, writes, indexes);
              failed = ground (arith, fits, writes, indexes);
            }
          ]
        ]
      ]

  pub append-Writes :
      (r : RawRecord) (s : RawRecorder)
      → (append disk r s).0 ≡ true
      → Writes (r ∷ []) s (append disk r s).1
  unfolding append
  append-Writes r s went =
      let n = length r.bytes in
      elim (Bool-cases ((n == 0) || ltb max_offset n)) [
        | inl bad ↦ ground (arith, went, bad)
        | inr fine ↦ elim (Bool-cases (is_full n s)) [
          | inr room ↦
              ground
                (arith, fine, room, append_record-Writes r s (ground (arith, went, fine, room)))
          | inl full ↦
              let q = rotate disk s in
              elim (Bool-cases q.0) [
                | inr lost ↦ ground (arith, went, fine, full, lost)
                | inl moved ↦ ground (
                  arith,
                  fine,
                  full,
                  moved,
                  Writes-trans (r ∷ []) s q.1 (append_record disk r q.1).1 (rotate-Writes s moved)
                      (append_record-Writes r q.1 (ground (arith, went, fine, full, moved))),
                )
              ]
        ]
      ]
