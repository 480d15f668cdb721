-- ===== src/Common/RotatingFileWriter/Cap.antt =====
-- The size of the files of `RotatingFileWriter`, common/include/file_writer.h.
use amiga_drivers.Prelude.{
  ℕ, suc, ◌+◌, ◌-◌, ◌≤◌, ◌<◌, ◌≡◌, refl, Bool, true, false, not, Bool-cases, Option-cases, inl, inr,
  none, some, List, [], ◌∷◌, All, All-append, length, length-append, take, length-take_le, ltb,
  arith,
}
use amiga_drivers.Common.RotatingFileWriter.{
  Options, Streams, Writer, WriterCall, new_writer, close_current, write_header, open_file,
  open_next, rotate_if_needed, ensure_open, precheck, write, append, call, run,
}

abbrev pub header_length : Options → ℕ
header_length opts = elim opts.on_new_file [ none ↦ 0 | some header ↦ length header ]

-- What a file may hold at most.
abbrev pub AtMost : Options → List ℕ → Type 0
AtMost opts file = length file ≤ opts.max_file_bytes + header_length opts

pub record Capped (opts : Options) (s : Writer) : Type 0 where
  pub now : AtMost opts s.current
  pub earlier : All (AtMost opts) s.finished

-- The count is that of the file, while nothing has failed.
pub record Counted (opts : Options) (s : Writer) : Type 0 where
  pub capped : Capped opts s
  pub counts : s.is_open ≡ true → s.failed ≡ false → s.current_bytes ≡ length s.current
  pub closed : s.is_open ≡ false → s.current ≡ []

module _ (opts : Options) (streams : Streams) where
  close_current-Counted :
      (s : Writer) → Counted opts s → Counted opts (close_current opts streams s).1
  unfolding close_current
  close_current-Counted s h =
      let more =
        All-append (AtMost opts) s.finished (s.current ∷ []) h.capped.earlier (h.capped.now, tt) in
      elim (Bool-cases s.is_open) [
        | inl up ↦ record {
          capped = record { now = ground (arith, up); earlier = ground (arith, up, more) };
          counts = ground (arith, up);
          closed = ground (arith, up);
        }
        | inr down ↦ ground (arith, down, h)
      ]

  close_current-answer :
      (s : Writer) → (close_current opts streams s).0 ≡ not (close_current opts streams s).1.failed
  unfolding close_current
  close_current-answer s = ground arith

  write_header-Counted :
      (s : Writer)
      → Counted opts s
      → s.is_open ≡ true
      → s.current ≡ []
      → s.current_bytes ≡ 0
      → Counted opts (write_header opts streams s).1
  unfolding write_header
  write_header-Counted s h up empty zero_bytes = elim (Option-cases opts.on_new_file) [
    | inl no_header ↦ ground (arith, no_header, h)
    | inr header ↦ elim (Bool-cases (streams.succeeds s.accesses)) [
      | inl went ↦ record {
        capped = record {
          now = ground (arith, header.1, went);
          earlier = ground (arith, header.1, went, h.capped.earlier);
        };
        counts = ground (arith, header.1, went);
        closed = ground (arith, header.1, went, up);
      }
      | inr lost ↦
          let torn = take (streams.torn s.accesses) header.0 in
          let t = record s { accesses = suc s.accesses; current = torn; failed = true } in
          let c : Counted opts t = record {
            capped = record {
              now = ground (arith, header.1, length-take_le (streams.torn s.accesses) header.0);
              earlier = h.capped.earlier;
            };
            counts = ground arith;
            closed = ground (arith, up);
          } in
          ground (arith, header.1, lost, close_current-Counted t c)
    ]
  ]

  -- A file that is opened holds the header at most.
  record Fresh (q : Bool × Writer) : Type 0 where
    counted : Counted opts q.1
    fresh :
        q.0 ≡ true
        → (q.1.is_open ≡ true) × ((q.1.failed ≡ false) × (q.1.current_bytes ≤ header_length opts))

  write_header-Fresh :
      (s : Writer)
      → Counted opts s
      → s.is_open ≡ true
      → s.current ≡ []
      → s.current_bytes ≡ 0
      → s.failed ≡ false
      → Fresh (write_header opts streams s)
  unfolding write_header
  write_header-Fresh s h up empty zero_bytes fine = record {
    counted = write_header-Counted s h up empty zero_bytes;
    fresh = elim (Option-cases opts.on_new_file) [
      | inl no_header ↦ ground (arith, no_header, up, zero_bytes, fine)
      | inr header ↦ ground (arith, header.1, up, fine)
    ];
  }

  open_next-Fresh : (s : Writer) → Counted opts s → Fresh (open_next opts streams s)
  unfolding open_next open_file
  open_next-Fresh s h =
      let q = close_current opts streams s in
      let c = close_current-Counted s h in
      let answer = close_current-answer s in
      elim (Bool-cases q.0) [
        | inr lost ↦ ground (arith, lost, c)
        | inl went ↦ elim (Bool-cases (streams.succeeds q.1.accesses)) [
          | inr lost ↦
              let t = record q.1 { accesses = suc q.1.accesses; failed = true } in
              let d : Counted opts t = record {
                capped = ground (arith, c);
                counts = ground arith;
                closed = ground (arith, c);
              } in
              ground (arith, went, lost, d)
          | inl opens ↦
              let t = record q.1 {
                accesses = suc q.1.accesses;
                is_open = true;
                current = [];
                current_bytes = 0;
                seq = suc q.1.seq;
                files_opened = suc q.1.files_opened;
              } in
              let d : Counted opts t = record {
                capped = record { now = omega arith; earlier = c.capped.earlier };
                counts = ground arith;
                closed = ground arith;
              } in
              let fine : q.1.failed ≡ false = ground (arith, went, answer) in
              ground (arith, went, opens, write_header-Fresh t d refl refl refl fine)
        ]
      ]

  rotate_if_needed-Counted :
      (s : Writer) → Counted opts s → Counted opts (rotate_if_needed opts streams s).1
  unfolding rotate_if_needed
  rotate_if_needed-Counted s h = ground (arith, h, (open_next-Fresh s h).counted)

  module _ (capped : opts.precheck_size_cap ≡ true) (positive : 0 < opts.max_file_bytes) where
    -- There is room for a record of this length.
    record Roomy (len : ℕ) (q : Bool × Writer) : Type 0 where
      counted : Counted opts q.1
      room :
          q.0 ≡ true
          → (q.1.is_open ≡ true)
            × ((q.1.failed ≡ false)
                × (q.1.current_bytes + len ≤ opts.max_file_bytes + header_length opts))

    precheck-Roomy :
        (len : ℕ) (s : Writer)
        → Counted opts s
        → s.is_open ≡ true
        → s.failed ≡ false
        → Roomy len (precheck opts streams len s)
    unfolding precheck
    precheck-Roomy len s h up fine =
        let f = open_next-Fresh s h in
        elim (Bool-cases (ltb opts.max_file_bytes len)) [
          | inl never ↦
              let t = record s { failed = true } in
              let d : Counted opts t = record {
                capped = ground (arith, h);
                counts = ground arith;
                closed = ground (arith, h);
              } in
              ground (arith, capped, positive, never, d)
          | inr fits ↦ elim (Bool-cases (ltb (opts.max_file_bytes - len) s.current_bytes)) [
            | inr room ↦ ground (arith, capped, positive, fits, room, h, up, fine)
            | inl full ↦ record {
              counted = ground (arith, capped, positive, fits, full, f.counted);
              room = ground (arith, capped, positive, fits, full, f.fresh);
            }
          ]
        ]

    write-Counted :
        (bytes : List ℕ) (s : Writer)
        → Counted opts s
        → s.is_open ≡ true
        → s.failed ≡ false
        → s.current_bytes + length bytes ≤ opts.max_file_bytes + header_length opts
        → Counted opts (write opts streams bytes s).1
    unfolding write
    write-Counted bytes s h up fine room =
        let e = h.counts up fine in
        elim (Bool-cases (streams.succeeds s.accesses)) [
          | inl went ↦ record {
            capped = record {
              now = ground (arith, went, e, length-append s.current bytes, room);
              earlier = ground (arith, went, h.capped.earlier);
            };
            counts = ground (arith, went, e, length-append s.current bytes);
            closed = ground (arith, went, up);
          }
          | inr lost ↦
              let torn = take (streams.torn s.accesses) bytes in
              record {
                capped = record {
                  now = ground (
                    arith,
                    lost,
                    e,
                    length-append s.current torn,
                    length-take_le (streams.torn s.accesses) bytes,
                    room,
                  );
                  earlier = ground (arith, lost, h.capped.earlier);
                };
                counts = ground (arith, lost);
                closed = ground (arith, lost, up);
              }
        ]

    append-Counted :
        (bytes : List ℕ) (s : Writer)
        → Counted opts s
        → Counted opts (append opts streams bytes s).1
    unfolding append ensure_open
    append-Counted bytes s h =
        let n = length bytes in
        let q1 = ensure_open opts streams s in
        let q2 = precheck opts streams n q1.1 in
        let q3 = write opts streams bytes q2.1 in
        let f = open_next-Fresh s h in
        let opened : Counted opts q1.1 = ground (arith, f.counted, h) in
        elim (Bool-cases s.failed) [
          | inl done ↦ ground (arith, done, h)
          | inr fine ↦ elim (Bool-cases q1.0) [
            | inr lost ↦ ground (arith, fine, lost, opened)
            | inl went ↦
                let up : (q1.1.is_open ≡ true) × (q1.1.failed ≡ false) =
                  ground (arith, fine, went, f.fresh) in
                let r = precheck-Roomy n q1.1 opened up.0 up.1 in
                elim (Bool-cases q2.0) [
                  | inr lost ↦ ground (arith, fine, went, lost, r.counted)
                  | inl room ↦
                      let at = r.room room in
                      let w = write-Counted bytes q2.1 r.counted at.0 at.1.0 at.1.1 in
                      elim (Bool-cases q3.0) [
                        | inr lost ↦ ground (arith, fine, went, room, lost, w)
                        | inl written ↦
                            ground
                              (arith, fine, went, room, written, rotate_if_needed-Counted q3.1 w)
                      ]
                ]
          ]
        ]

    run-Counted :
        (cs : List WriterCall) (s : Writer) → Counted opts s → Counted opts (run opts streams cs s)
    unfolding run call
    run-Counted [] s h = h
    run-Counted (WriterCall.append_call bytes ∷ cs) s h =
        run-Counted cs _ (append-Counted bytes s h)
    run-Counted (WriterCall.end_call ∷ cs) s h = run-Counted cs _ (close_current-Counted s h)

-- With the check before a write, whatever is appended and whatever the streams and the clock do: no file is
-- longer than the limit and the bytes that the callback for a new file writes. Without the callback, as in
-- the driver of the receivers, the limit is therefore a hard one.
pub run-Capped :
    (opts : Options) (streams : Streams) (cs : List WriterCall)
    → opts.precheck_size_cap ≡ true
    → 0 < opts.max_file_bytes
    → Capped opts (run opts streams cs new_writer)
run-Capped opts streams cs capped positive =
    let empty : Counted opts new_writer = record {
      capped = record { now = omega arith; earlier = tt };
      counts = ground arith;
      closed = λ _. refl;
    } in
    (run-Counted opts streams capped positive cs new_writer empty).capped
