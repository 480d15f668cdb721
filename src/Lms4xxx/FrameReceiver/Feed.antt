-- ===== src/Lms4xxx/FrameReceiver/Feed.antt =====
-- What a call of `Feed` of lms4xxx_driver/src/frame_receiver.cpp does with any bytes.
use amiga_drivers.Prelude.{
  ℕ, zero, suc, ◌+◌, ◌-◌, ◌≤◌, ◌≡◌, refl, ap, sym, ◌∙◌, Bool-cases, inl, inr, List, [], ◌∷◌, ◌++◌,
  append-nil, length, drop, length-drop, ltb, ◌==◌, ==_iff, arith, subst,
}
use amiga_drivers.Lms4xxx.FrameReceiver.{
  FrameReceiver, RawFrame, write_pos, header_size, round, feed_loop, feed, compact,
}
use amiga_drivers.Lms4xxx.FrameReceiver.Splits.{
  frames, Splits, done, Progress, Progress-refl, Progress-trans,
}
use amiga_drivers.Lms4xxx.FrameReceiver.Rounds.{RoundDone, round-RoundDone}

-- What the loop gives when it ends by itself: the bytes it has passed are cut into skipped bytes and
-- telegrams, and what is left is shorter than one frame of the greatest size.
record LoopDone (r : FrameReceiver) (p : ℕ) (r' : FrameReceiver) (p' : ℕ) : Type 0 where
  progress : Progress r p r' p'
  within : p' ≤ write_pos r
  settled : write_pos r - p' ≤ r.max_frame_size + header_size

LoopDone-step :
    (r s t : FrameReceiver) (p q k : ℕ) → Progress r p s q → LoopDone s q t k → LoopDone r p t k
LoopDone-step r s t p q k a b = record {
  progress = Progress-trans a b.progress;
  within = omega (arith, b.within, ap length a.same_buffer);
  settled = omega (arith, b.settled, ap length a.same_buffer, a.same_max);
}

feed_loop-LoopDone :
    (fuel : ℕ) (r : FrameReceiver) (p : ℕ)
    → p ≤ write_pos r
    → write_pos r - p ≤ fuel
    → LoopDone r p (feed_loop fuel r p).0 (feed_loop fuel r p).1
unfolding feed_loop
feed_loop-LoopDone zero r p h e = record {
  progress = Progress-refl r p;
  within = h;
  settled = omega arith;
}
feed_loop-LoopDone (suc fuel) r p h e = elim (Bool-cases (ltb p (write_pos r))) [
  | inr ends ↦ rw ends (record { progress = Progress-refl r p; within = h; settled = ground arith })
  | inl more ↦ rw more (elim (Bool-cases (round r p).goes_on) [
    | inr stops ↦
        rw stops
          (record { progress = now.progress; within = now.within; settled = now.settled stops })
    | inl goes ↦ rw goes (
        LoopDone-step r (round r p).receiver _ p (round r p).scan_pos _ now.progress (
          feed_loop-LoopDone fuel (round r p).receiver (round r p).scan_pos
            (omega (arith, now.within, ap length now.progress.same_buffer))
            (omega (arith, now.advances goes, ap length now.progress.same_buffer))))
  ])
]
  where
    now : RoundDone r p (round r p)
    now = round-RoundDone r p h

compact_buffer : (r : FrameReceiver) (p : ℕ) → (compact r p).buffer ≡ drop p r.buffer
unfolding compact
compact_buffer r p = elim (Bool-cases (p == 0)) [
  | inl e ↦ let z : p ≡ 0 = (==_iff p 0).0 e in rw z refl
  | inr e ↦ rw e refl
]

compact_keeps :
    (r : FrameReceiver) (p : ℕ)
    → ((compact r p).events ≡ r.events) × ((compact r p).max_frame_size ≡ r.max_frame_size)
unfolding compact
compact_keeps r p = (ground arith, ground arith)

-- The loop of a call of `Feed`, from the bytes received to where it stops.
received : FrameReceiver → List ℕ → FrameReceiver
received r bytes = record r { buffer = r.buffer ++ bytes }

abbrev stop : FrameReceiver → List ℕ → FrameReceiver × ℕ
stop r bytes = feed_loop (write_pos (received r bytes)) (received r bytes) 0

stop-LoopDone :
    (r : FrameReceiver) (bytes : List ℕ)
    → LoopDone (received r bytes) 0 (stop r bytes).0 (stop r bytes).1
stop-LoopDone r bytes =
    feed_loop-LoopDone (write_pos (received r bytes)) (received r bytes) 0 (omega arith)
      (omega arith)

-- What a call of `Feed` does: the bytes that were left over and the new ones are cut, in order and
-- without overlap, into skipped bytes, the telegrams that the frame callback gets during the call,
-- and the bytes that are left over for the next call.
pub record Fed (r : FrameReceiver) (bytes : List ℕ) (r' : FrameReceiver) : Type 0 where
  pub delivered : List RawFrame
  pub handed_over : frames r'.events ≡ frames r.events ++ delivered
  pub cut : Splits r.max_frame_size (r.buffer ++ bytes) delivered r'.buffer
  pub same_max : r'.max_frame_size ≡ r.max_frame_size

-- One call of `Feed`, whatever the bytes: what was left over before, with the new bytes, is skipped bytes
-- and whole telegrams, and then what is left over now. Exactly these telegrams are delivered, in order.
pub feed-Fed : (r : FrameReceiver) (bytes : List ℕ) → Fed r bytes (feed r bytes)
unfolding feed received
feed-Fed r [] = record {
  delivered = [];
  handed_over = sym (append-nil (frames r.events));
  cut = subst (λ t. Splits r.max_frame_size t [] r.buffer) (sym (append-nil r.buffer)) done;
  same_max = refl;
}
feed-Fed r (b ∷ bytes) = record {
  delivered = l.progress.delivered;
  handed_over = ap frames (compact_keeps at.0 at.1).0 ∙ l.progress.handed_over;
  cut =
      subst (λ t. Splits r.max_frame_size (r.buffer ++ (b ∷ bytes)) l.progress.delivered t)
        (ap (drop at.1) (sym l.progress.same_buffer) ∙ sym (compact_buffer at.0 at.1))
        l.progress.cut;
  same_max = (compact_keeps at.0 at.1).1 ∙ l.progress.same_max;
}
  where
    at : FrameReceiver × ℕ
    at = stop r (b ∷ bytes)

    l : LoopDone (received r (b ∷ bytes)) 0 at.0 at.1
    l = stop-LoopDone r (b ∷ bytes)

-- After a call of `Feed` with a byte at least, the bytes that are left over are at most a header and
-- a data part of the greatest size: an incomplete frame lacks its checksum at least.
pub feed_bounded :
    (r : FrameReceiver) (b : ℕ) (bytes : List ℕ)
    → length (feed r (b ∷ bytes)).buffer ≤ r.max_frame_size + header_size
unfolding feed received
feed_bounded r b bytes = omega (
  arith,
  ap length (compact_buffer at.0 at.1),
  length-drop at.1 at.0.buffer,
  ap length l.progress.same_buffer,
  l.settled,
)
  where
    at : FrameReceiver × ℕ
    at = stop r (b ∷ bytes)

    l : LoopDone (received r (b ∷ bytes)) 0 at.0 at.1
    l = stop-LoopDone r (b ∷ bytes)
