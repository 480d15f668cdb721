-- ===== src/Lms4xxx/FrameReceiver/Splits.antt =====
-- The stream as the pieces that lms4xxx_driver/src/frame_receiver.cpp cuts it into: bytes that are
-- skipped, and telegrams that are delivered.
use amiga_drivers.Prelude.{
  ℕ, zero, suc, ◌+◌, ◌-◌, ◌≤◌, ◌≡◌, refl, ap, sym, ◌∙◌, List, [], ◌∷◌, ◌++◌, append-nil,
  append_assoc, drop, drop-drop, arith, subst,
}
use amiga_drivers.Lms4xxx.FrameReceiver.{FrameReceiver, RawFrame, Event, on_frame, on_error}
use amiga_drivers.Lms4xxx.FrameReceiver.Telegram.{IsTelegram}

-- The frames that were handed to the frame callback, in order.
abbrev pub frames : List Event → List RawFrame
frames [] = []
frames (on_frame f ∷ es) = f ∷ frames es
frames (on_error e n ∷ es) = frames es

pub frames-append : (es fs : List Event) → frames (es ++ fs) ≡ frames es ++ frames fs
frames-append [] fs = refl
frames-append (on_frame f ∷ es) fs = ap (λ t. f ∷ t) (frames-append es fs)
frames-append (on_error e n ∷ es) fs = frames-append es fs

-- `Splits m s fs rest`: the bytes `s` are skipped bytes and the telegrams `fs`, in that order and
-- without overlap, and then `rest`.
pub data Splits (m : ℕ) : List ℕ → List RawFrame → List ℕ → Type 0 where
  done : {rest : List ℕ} → Splits m rest [] rest
  skip :
      {s rest : List ℕ} {fs : List RawFrame} (b : ℕ) → Splits m s fs rest → Splits m (b ∷ s) fs rest
  telegram :
      {s t rest : List ℕ} {fs : List RawFrame} (f : RawFrame)
      → IsTelegram m f
      → t ≡ f.bytes ++ s
      → Splits m s fs rest
      → Splits m t (f ∷ fs) rest

pub Splits_trans :
    {m : ℕ} {s t u : List ℕ} {fs gs : List RawFrame}
    → Splits m s fs t
    → Splits m t gs u
    → Splits m s (fs ++ gs) u
Splits_trans done k = k
Splits_trans (skip b h) k = skip b (Splits_trans h k)
Splits_trans (telegram f i e h) k = telegram f i e (Splits_trans h k)

Splits_skips : {m : ℕ} (k : ℕ) (s : List ℕ) → Splits m s [] (drop k s)
Splits_skips zero s = done
Splits_skips (suc k) [] = done
Splits_skips (suc k) (b ∷ s) = skip b (Splits_skips k s)

-- What lies behind `rest` does not matter.
pub Splits_append :
    {m : ℕ} {s rest : List ℕ} {fs : List RawFrame} (more : List ℕ)
    → Splits m s fs rest
    → Splits m (s ++ more) fs (rest ++ more)
Splits_append more done = done
Splits_append more (skip b h) = skip b (Splits_append more h)
Splits_append more (telegram {s = s} f i e h) =
    telegram f i (ap (λ t. t ++ more) e ∙ append_assoc f.bytes s more) (Splits_append more h)

-- From `r` at position `p` to `r'` at position `p'`: the buffer is the same, and the bytes between
-- are skipped or make up the frames that were delivered meanwhile.
pub record Progress (r : FrameReceiver) (p : ℕ) (r' : FrameReceiver) (p' : ℕ) : Type 0 where
  pub same_buffer : r'.buffer ≡ r.buffer
  pub same_max : r'.max_frame_size ≡ r.max_frame_size
  pub delivered : List RawFrame
  pub handed_over : frames r'.events ≡ frames r.events ++ delivered
  pub cut : Splits r.max_frame_size (drop p r.buffer) delivered (drop p' r.buffer)

pub Progress-refl : (r : FrameReceiver) (p : ℕ) → Progress r p r p
Progress-refl r p = record {
  same_buffer = refl;
  same_max = refl;
  delivered = [];
  handed_over = sym (append-nil (frames r.events));
  cut = done;
}

pub Progress-trans :
    {r s t : FrameReceiver} {p q k : ℕ} → Progress r p s q → Progress s q t k → Progress r p t k
Progress-trans {r} {s} {t} {p} {q} {k} a b = record {
  same_buffer = b.same_buffer ∙ a.same_buffer;
  same_max = b.same_max ∙ a.same_max;
  delivered = a.delivered ++ b.delivered;
  handed_over =
      b.handed_over
      ∙ ap (λ t. t ++ b.delivered) a.handed_over
      ∙ append_assoc (frames r.events) a.delivered b.delivered;
  cut = Splits_trans a.cut moved;
}
  where
    moved : Splits r.max_frame_size (drop q r.buffer) b.delivered (drop k r.buffer)
    moved =
        rw (← a.same_max) (
          subst (λ l. Splits s.max_frame_size (drop q l) b.delivered (drop k l)) a.same_buffer
            b.cut)

-- Moving on without a delivery.
pub Progress-skip :
    (r r' : FrameReceiver) (p p' : ℕ)
    → p ≤ p'
    → r'.buffer ≡ r.buffer
    → r'.max_frame_size ≡ r.max_frame_size
    → frames r'.events ≡ frames r.events
    → Progress r p r' p'
Progress-skip r r' p p' h b m e = record {
  same_buffer = b;
  same_max = m;
  delivered = [];
  handed_over = e ∙ sym (append-nil (frames r.events));
  cut =
      let q : p + (p' - p) ≡ p' = omega arith in
      let d : drop (p' - p) (drop p r.buffer) ≡ drop p' r.buffer =
        drop-drop p (p' - p) r.buffer ∙ ap (λ k. drop k r.buffer) q in
      subst (λ t. Splits r.max_frame_size (drop p r.buffer) [] t) d
        (Splits_skips (p' - p) (drop p r.buffer));
}
