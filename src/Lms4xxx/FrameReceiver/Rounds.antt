-- ===== src/Lms4xxx/FrameReceiver/Rounds.antt =====
-- One round of the loop of `Feed` in lms4xxx_driver/src/frame_receiver.cpp.
use amiga_drivers.Prelude.{
  ℕ, ◌+◌, ◌-◌, ◌≤◌, ◌<◌, ◌≡◌, refl, ap, sym, ◌∙◌, max, true, false, Bool-cases, inl, inr, ◌||◌, [],
  ◌∷◌, ◌++◌, append-nil, length, drop, drop-drop, take-append-drop, ltb, ◌==◌, ==_iff, ltb→lt,
  arith, subst,
}
use amiga_drivers.Common.ByteUtil.{load_big_u32}
use amiga_drivers.Lms4xxx.FrameReceiver.{
  FrameReceiver, FrameError, on_frame, on_error, write_pos, header_size, stx_size, Round,
  report_framing_error, report_garbage, starts_stx, find_stx, reject_length, deliver,
  try_extract_frame, round_no_stx, skipped, round_stx, round,
}
use amiga_drivers.Lms4xxx.FrameReceiver.Scan.{find_stx_above, find_stx_below, find_stx_at}
use amiga_drivers.Lms4xxx.FrameReceiver.Telegram.{frame_at, frame_at-IsTelegram}
use amiga_drivers.Lms4xxx.FrameReceiver.Splits.{
  frames, frames-append, Splits, done, telegram, Progress, Progress-refl, Progress-trans,
  Progress-skip,
}

-- Reporting changes the count and the error calls only.
report_framing_error-Progress :
    (r : FrameReceiver) (e : FrameError) (p p' : ℕ)
    → p ≤ p'
    → Progress r p (report_framing_error r e) p'
unfolding report_framing_error
report_framing_error-Progress r e p p' h =
    Progress-skip r (report_framing_error r e) p p' h refl refl
      (frames-append r.events _ ∙ append-nil (frames r.events))

report_garbage-Progress :
    (r : FrameReceiver) (b e p p' : ℕ) → p ≤ p' → Progress r p (report_garbage r b e) p'
unfolding report_garbage
report_garbage-Progress r b e p p' h = elim (Bool-cases (ltb (max b r.error_covered_until) e)) [
  | inl t ↦ rw t (report_framing_error-Progress r FrameError.garbage p p' h)
  | inr t ↦ rw t (Progress-skip r r p p' h refl refl refl)
]

-- What `TryExtractFrame` at `pos` gives: the receiver, and the bytes consumed.
record Extracted (r : FrameReceiver) (pos : ℕ) (r' : FrameReceiver) (n : ℕ) : Type 0 where
  progress : Progress r pos r' (pos + n)
  within : pos + n ≤ write_pos r
  waits : n ≡ 0 → write_pos r - pos ≤ r.max_frame_size + header_size

unmoved-Extracted :
    (r : FrameReceiver) (pos : ℕ)
    → pos ≤ write_pos r
    → write_pos r - pos ≤ r.max_frame_size + header_size
    → Extracted r pos r 0
unmoved-Extracted r pos h w = record {
  progress = Progress-skip r r pos (pos + 0) (omega arith) refl refl refl;
  within = omega arith;
  waits = λ _. w;
}

reject_length-Extracted :
    (r : FrameReceiver) (pos n : ℕ)
    → header_size ≤ write_pos r - pos
    → Extracted r pos (reject_length r pos n).0 (reject_length r pos n).1
unfolding reject_length report_framing_error
reject_length-Extracted r pos n h = record {
  progress =
      Progress-skip r _ pos (pos + 1) (omega arith) refl refl
        (frames-append r.events _ ∙ append-nil (frames r.events));
  within = omega arith;
  waits = λ e. absurd (omega arith);
}

deliver-frames :
    (r : FrameReceiver) (pos n : ℕ)
    → frames ((deliver r pos n).0).events ≡ frames r.events ++ (frame_at r pos n ∷ [])
unfolding deliver report_framing_error
deliver-frames r pos n = ground (
  arith,
  frames-append r.events (on_frame (frame_at r pos n) ∷ []),
  frames-append
      (r.events ++ (on_error FrameError.checksum_mismatch (r.consecutive_framing_errors + 1) ∷ []))
      (on_frame (frame_at r pos n) ∷ []),
  frames-append r.events
      (on_error FrameError.checksum_mismatch (r.consecutive_framing_errors + 1) ∷ []),
  append-nil (frames r.events),
)

deliver_keeps :
    (r : FrameReceiver) (pos n : ℕ)
    → ((deliver r pos n).0.buffer ≡ r.buffer)
      × ((deliver r pos n).0.max_frame_size ≡ r.max_frame_size)
      × ((deliver r pos n).1 ≡ header_size + n + 1)
unfolding deliver report_framing_error
deliver_keeps r pos n = (ground arith, ground arith, refl)

deliver-Extracted :
    (r : FrameReceiver) (pos n : ℕ)
    → starts_stx (drop pos r.buffer) ≡ true
    → load_big_u32 (drop (pos + stx_size) r.buffer) ≡ n
    → 0 < n
    → n ≤ r.max_frame_size
    → header_size + n + 1 ≤ write_pos r - pos
    → Extracted r pos (deliver r pos n).0 (deliver r pos n).1
deliver-Extracted r pos n stx e low high fits = record {
  progress = record {
    same_buffer = keeps.0;
    same_max = keeps.1;
    delivered = frame_at r pos n ∷ [];
    handed_over = deliver-frames r pos n;
    cut =
        telegram (frame_at r pos n) (frame_at-IsTelegram r pos n stx e low high fits)
          (sym (take-append-drop total (drop pos r.buffer)))
          (subst (λ t. Splits r.max_frame_size (drop total (drop pos r.buffer)) [] t) moved done);
  };
  within = omega (arith, keeps.2);
  waits = λ z. absurd (omega (arith, keeps.2));
}
  where
    keeps :
        ((deliver r pos n).0.buffer ≡ r.buffer)
        × ((deliver r pos n).0.max_frame_size ≡ r.max_frame_size)
        × ((deliver r pos n).1 ≡ header_size + n + 1)
    keeps = deliver_keeps r pos n

    total : ℕ
    total = header_size + n + 1

    moved : drop total (drop pos r.buffer) ≡ drop (pos + (deliver r pos n).1) r.buffer
    moved = rw keeps.2 (drop-drop pos total r.buffer)

try_extract_frame-Extracted :
    (r : FrameReceiver) (pos : ℕ)
    → pos ≤ write_pos r
    → starts_stx (drop pos r.buffer) ≡ true
    → Extracted r pos (try_extract_frame r pos).0 (try_extract_frame r pos).1
unfolding try_extract_frame
try_extract_frame-Extracted r pos h stx = elim (Bool-cases (ltb (write_pos r - pos) header_size)) [
  | inl short ↦ rw short (unmoved-Extracted r pos h (omega (arith, ltb→lt _ _ short)))
  | inr long ↦ rw long (elim (Bool-cases (n == 0 || ltb r.max_frame_size n)) [
    | inl out ↦ rw out (reject_length-Extracted r pos n (ground arith))
    | inr fine ↦ rw fine (elim (Bool-cases (ltb (write_pos r - pos) (header_size + n + 1))) [
      | inl part ↦ rw part (unmoved-Extracted r pos h (ground arith))
      | inr whole ↦
          rw whole (deliver-Extracted r pos n stx refl (ground arith) (ground arith) (ground arith))
    ])
  ])
]
  where
    n : ℕ
    n = load_big_u32 (drop (pos + stx_size) r.buffer)

-- What a round gives.
pub record RoundDone (r : FrameReceiver) (p : ℕ) (next : Round) : Type 0 where
  pub progress : Progress r p next.receiver next.scan_pos
  pub within : next.scan_pos ≤ write_pos r
  pub advances : next.goes_on ≡ true → p < next.scan_pos
  pub settled : next.goes_on ≡ false → write_pos r - next.scan_pos ≤ r.max_frame_size + header_size

round_no_stx-RoundDone :
    (r : FrameReceiver) (p : ℕ) → p ≤ write_pos r → RoundDone r p (round_no_stx r p)
unfolding round_no_stx
round_no_stx-RoundDone r p h = elim (Bool-cases (ltb 3 (write_pos r))) [
  | inl long ↦ rw long (record {
    progress = report_garbage-Progress r p keep_from p keep_from (omega arith);
    within = omega arith;
    advances = λ e. absurd (cc);
    settled = λ _. omega arith;
  })
  | inr short ↦ rw short (record {
    progress = Progress-refl r p;
    within = h;
    advances = λ e. absurd (cc);
    settled = λ _. ground arith;
  })
]
  where
    keep_from : ℕ
    keep_from = max p (write_pos r - 3)

skipped-Progress : (r : FrameReceiver) (p q : ℕ) → p ≤ q → Progress r p (skipped r p q) q
unfolding skipped
skipped-Progress r p q h = elim (Bool-cases (ltb p q)) [
  | inl t ↦ rw t (report_garbage-Progress r p q p q h)
  | inr t ↦ rw t (Progress-skip r r p q h refl refl refl)
]

round_stx-RoundDone :
    (r : FrameReceiver) (p q : ℕ)
    → p ≤ q
    → q ≤ write_pos r
    → starts_stx (drop q r.buffer) ≡ true
    → RoundDone r p (round_stx r p q)
unfolding round_stx
round_stx-RoundDone r p q le within stx =
    elim (Bool-cases ((try_extract_frame (skipped r p q) q).1 == 0)) [
      | inl e ↦ rw e (record {
        progress =
            subst (λ k. Progress r p (try_extract_frame (skipped r p q) q).0 k) (ground arith)
              whole;
        within = within;
        advances = λ x. absurd (cc);
        settled = λ _.
            omega
              (arith, found.waits ((==_iff _ 0).0 e), ap length front.same_buffer, front.same_max);
      })
      | inr e ↦ rw e (record {
        progress = whole;
        within = omega (arith, found.within, ap length front.same_buffer);
        advances = λ _. ground arith;
        settled = λ x. absurd (cc);
      })
    ]
  where
    front : Progress r p (skipped r p q) q
    front = skipped-Progress r p q le

    found :
        Extracted
          (skipped r p q)
          q
          (try_extract_frame (skipped r p q) q).0
          (try_extract_frame (skipped r p q) q).1
    found =
        try_extract_frame-Extracted (skipped r p q) q (omega (arith, ap length front.same_buffer))
          (rw front.same_buffer stx)

    whole :
        Progress r p
          (try_extract_frame (skipped r p q) q).0
          (q + (try_extract_frame (skipped r p q) q).1)
    whole = Progress-trans front found.progress

pub round-RoundDone : (r : FrameReceiver) (p : ℕ) → p ≤ write_pos r → RoundDone r p (round r p)
unfolding round
round-RoundDone r p h = elim (Bool-cases (find_stx r p == write_pos r)) [
  | inl e ↦ rw e (round_no_stx-RoundDone r p h)
  | inr e ↦ rw e (
      round_stx-RoundDone r p (find_stx r p) (find_stx_above r p) (find_stx_below r p h)
        (find_stx_at r p h (λ q. cc (e, (==_iff _ _).1 q))))
]
