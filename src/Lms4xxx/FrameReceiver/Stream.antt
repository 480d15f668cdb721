-- ===== src/Lms4xxx/FrameReceiver/Stream.antt =====
-- A stream of encoded frames reaches lms4xxx_driver/src/frame_receiver.cpp in any pieces.
use amiga_drivers.Prelude.{
  ℕ, zero, suc, ◌+◌, ◌-◌, ◌^◌, ◌≤◌, ◌<◌, ◌≡◌, refl, ap, sym, ◌∙◌, Bool-cases, inl, inr, List, [],
  ◌∷◌, ◌++◌, map, All, append-nil, append_assoc, length, length-append, drop, drop-drop,
  length-drop, drop_all, ltb, ltb→lt, ◌==◌, ==_iff, arith, subst,
}
use mathlib.Core.List.{map-append}
use amiga_drivers.Lms4xxx.ColaB.{frame_of}
use amiga_drivers.Lms4xxx.FrameReceiver.{
  FrameReceiver, write_pos, feed_loop, feed, compact, new_receiver,
}
use amiga_drivers.Lms4xxx.FrameReceiver.Aligned.{
  good, IsPayload, length-frame_of, frame_front, round_whole, round_partial,
}

-- The bytes that a sender of these data parts puts on the wire.
abbrev pub stream : List (List ℕ) → List ℕ
stream [] = []
stream (d ∷ ds) = frame_of d ++ stream ds

-- The calls of `Feed`, one for each piece.
abbrev pub feed_all : FrameReceiver → List (List ℕ) → FrameReceiver
feed_all r [] = r
feed_all r (c ∷ cs) = feed_all (feed r c) cs

abbrev pub flatten : List (List ℕ) → List ℕ
flatten [] = []
flatten (c ∷ cs) = c ++ flatten cs

-- The bytes `s` that are left over are less than the first frame that is still to come.
abbrev IsPart : List ℕ → List (List ℕ) → Type 0
IsPart s [] = Unit {0}
IsPart s (d ∷ ds) = length s < 9 + length d

-- From `r` at `p` to `r'` at `p'` the frames of `before` were delivered, and those of `after` are to
-- come, from the bytes at `p'` and the future.
record Taken (r : FrameReceiver) (future : List ℕ) (ds : List (List ℕ)) (r' : FrameReceiver)
    (p' : ℕ) : Type 0 where
  before : List (List ℕ)
  after : List (List ℕ)
  parts : ds ≡ before ++ after
  called : r'.events ≡ r.events ++ map good before
  same_max : r'.max_frame_size ≡ r.max_frame_size
  ahead : drop p' r'.buffer ++ future ≡ stream after
  waits : IsPart (drop p' r'.buffer) after

IsPart-nil : (ds : List (List ℕ)) → IsPart [] ds
IsPart-nil [] = tt
IsPart-nil (d ∷ ds) = omega arith

-- Nothing is taken, and the bytes that are left are a part of the next frame.
Taken-none :
    (r : FrameReceiver) (p : ℕ) (future : List ℕ) (ds : List (List ℕ))
    → drop p r.buffer ++ future ≡ stream ds
    → IsPart (drop p r.buffer) ds
    → Taken r future ds r p
Taken-none r p future ds e w = record {
  before = [];
  after = ds;
  parts = refl;
  called = sym (append-nil r.events);
  same_max = refl;
  ahead = e;
  waits = w;
}

Taken-end :
    (r : FrameReceiver) (p : ℕ) (future : List ℕ) (ds : List (List ℕ))
    → write_pos r ≤ p
    → drop p r.buffer ++ future ≡ stream ds
    → Taken r future ds r p
Taken-end r p future ds h e =
    Taken-none r p future ds e (rw (drop_all p r.buffer h) (IsPart-nil ds))

Taken-cons :
    (r s t : FrameReceiver) (k : ℕ) (future d : List ℕ) (ds : List (List ℕ))
    → s.events ≡ r.events ++ (good d ∷ [])
    → s.max_frame_size ≡ r.max_frame_size
    → Taken s future ds t k
    → Taken r future (d ∷ ds) t k
Taken-cons r s t k future d ds e m a = record {
  before = d ∷ a.before;
  after = a.after;
  parts = ap (λ l. d ∷ l) a.parts;
  called =
      a.called
      ∙ ap (λ l. l ++ map good a.before) e
      ∙ append_assoc r.events (good d ∷ []) (map good a.before);
  same_max = a.same_max ∙ m;
  ahead = a.ahead;
  waits = a.waits;
}

feed_loop-Taken :
    (fuel : ℕ) (future : List ℕ) (r : FrameReceiver) (p : ℕ) (ds : List (List ℕ))
    → p ≤ write_pos r
    → write_pos r - p ≤ fuel
    → r.max_frame_size < 2 ^ 32
    → All (IsPayload r.max_frame_size) ds
    → drop p r.buffer ++ future ≡ stream ds
    → Taken r future ds (feed_loop fuel r p).0 (feed_loop fuel r p).1
unfolding feed_loop
feed_loop-Taken zero future r p ds h f limit ok e = Taken-end r p future ds (omega arith) e
feed_loop-Taken (suc fuel) future r p [] h f limit ok e = elim (Bool-cases (ltb p (write_pos r))) [
  | inr ends ↦ rw ends (Taken-end r p future [] (ground arith) e)
  | inl more ↦ absurd (
      omega (
        arith,
        ltb→lt _ _ more,
        ap length e,
        length-append (drop p r.buffer) future,
        length-drop p r.buffer,
      ))
]
feed_loop-Taken (suc fuel) future r p (d ∷ ds) h f limit ok e =
    elim (Bool-cases (ltb p (write_pos r))) [
      | inr ends ↦ rw ends (Taken-end r p future (d ∷ ds) (ground arith) e)
      | inl more ↦ rw more (elim (Bool-cases (ltb (write_pos r - p) (9 + length d))) [
        | inl part ↦
            rw
              (round_partial r p future d (stream ds) (ltb→lt _ _ more) limit ok.0 e
                (ltb→lt _ _ part))
              (Taken-none r p future (d ∷ ds) e
                (omega (arith, length-drop p r.buffer, ltb→lt _ _ part)))
        | inr whole ↦ rw (round_whole r p future d (stream ds) h limit ok.0 e (ground arith)) (
            Taken-cons r next _ _ future d ds refl refl (
              feed_loop-Taken fuel future next (p + (9 + length d)) ds (ground arith) (ground arith)
                limit ok.1 (ahead (ground arith))))
      ])
    ]
  where
    next : FrameReceiver
    next = record r {
      consecutive_framing_errors = 0;
      error_covered_until = 0;
      events = r.events ++ (good d ∷ []);
    }

    ahead :
        9 + length d ≤ write_pos r - p → drop (p + (9 + length d)) r.buffer ++ future ≡ stream ds
    ahead w =
        ap (λ s. s ++ future) (sym (drop-drop p (9 + length d) r.buffer))
        ∙ (frame_front (drop p r.buffer) future d (stream ds) e
            (omega (arith, length-drop p r.buffer))).1

-- The same for a call of `Feed`, with what is left over in place of a position.
record Received (r : FrameReceiver) (future : List ℕ) (ds : List (List ℕ)) (r' : FrameReceiver)
    : Type 0 where
  before : List (List ℕ)
  after : List (List ℕ)
  parts : ds ≡ before ++ after
  called : r'.events ≡ r.events ++ map good before
  same_max : r'.max_frame_size ≡ r.max_frame_size
  ahead : r'.buffer ++ future ≡ stream after
  waits : IsPart r'.buffer after

compact_buffer : (r : FrameReceiver) (p : ℕ) → (compact r p).buffer ≡ drop p r.buffer
unfolding compact
compact_buffer r p = elim (Bool-cases (p == 0)) [
  | inl e ↦ let z : p ≡ 0 = (==_iff p 0).0 e in rw z refl
  | inr e ↦ rw e refl
]

compact_keeps :
    (r : FrameReceiver) (p : ℕ)
    → ((compact r p).events ≡ r.events) × ((compact r p).max_frame_size ≡ r.max_frame_size)
unfolding compact
compact_keeps r p = (ground arith, ground arith)

compact-Received :
    (r q s : FrameReceiver) (p : ℕ) (future : List ℕ) (ds : List (List ℕ))
    → q.events ≡ r.events
    → q.max_frame_size ≡ r.max_frame_size
    → Taken q future ds s p
    → Received r future ds (compact s p)
compact-Received r q s p future ds e m a = record {
  before = a.before;
  after = a.after;
  parts = a.parts;
  called = (compact_keeps s p).0 ∙ a.called ∙ ap (λ l. l ++ map good a.before) e;
  same_max = (compact_keeps s p).1 ∙ a.same_max ∙ m;
  ahead = ap (λ t. t ++ future) (compact_buffer s p) ∙ a.ahead;
  waits = rw (compact_buffer s p) a.waits;
}

feed-Received :
    (r : FrameReceiver) (c future : List ℕ) (ds : List (List ℕ))
    → r.max_frame_size < 2 ^ 32
    → All (IsPayload r.max_frame_size) ds
    → IsPart r.buffer ds
    → r.buffer ++ (c ++ future) ≡ stream ds
    → Received r future ds (feed r c)
unfolding feed
feed-Received r [] future ds limit ok w e = record {
  before = [];
  after = ds;
  parts = refl;
  called = sym (append-nil r.events);
  same_max = refl;
  ahead = e;
  waits = w;
}
feed-Received r (b ∷ c) future ds limit ok w e =
    compact-Received r received _ _ future ds refl refl (
      feed_loop-Taken (write_pos received) future received 0 ds (omega arith) (omega arith) limit ok
        (append_assoc r.buffer (b ∷ c) future ∙ e))
  where
    received : FrameReceiver
    received = record r { buffer = r.buffer ++ (b ∷ c) }

All-append_right {ℓ κ} :
    {A : Type ℓ} (P : A → Type κ) (xs ys : List A) → All P (xs ++ ys) → All P ys
All-append_right P [] ys h = h
All-append_right P (x ∷ xs) ys h = All-append_right P xs ys h.1

feed_all-Received :
    (cs : List (List ℕ)) (r : FrameReceiver) (ds : List (List ℕ))
    → r.max_frame_size < 2 ^ 32
    → All (IsPayload r.max_frame_size) ds
    → IsPart r.buffer ds
    → r.buffer ++ flatten cs ≡ stream ds
    → ((feed_all r cs).events ≡ r.events ++ map good ds) × ((feed_all r cs).buffer ≡ [])
feed_all-Received [] r [] limit ok w e = (sym (append-nil r.events), sym (append-nil r.buffer) ∙ e)
feed_all-Received [] r (d ∷ ds) limit ok w e = absurd (
    omega (
      arith,
      ap length e,
      length-append (frame_of d) (stream ds),
      length-append r.buffer [],
      length-frame_of d,
    ))
feed_all-Received (c ∷ cs) r ds limit ok w e =
    let a = feed-Received r c (flatten cs) ds limit ok w e in
    let payloads =
      All-append_right (IsPayload r.max_frame_size) a.before a.after
        (subst (All (IsPayload r.max_frame_size)) a.parts ok) in
    let rest =
      feed_all-Received cs (feed r c) a.after (rw a.same_max limit) (rw a.same_max payloads) a.waits
        a.ahead in
    (
      rest.0
          ∙ ap (λ l. l ++ map good a.after) a.called
          ∙ append_assoc r.events (map good a.before) (map good a.after)
          ∙ ap (λ l. r.events ++ l)
              (sym (map-append good a.before a.after) ∙ ap (map good) (sym a.parts)),
      rest.1,
    )

-- A stream of encoded frames, cut into pieces at any places: from a new receiver the calls of `Feed`
-- deliver each frame once, in order, marked valid, report no error, and leave nothing over. Each
-- data part has a length from 1 to the maximum, which is below 2 ^ 32.
pub feed_all-stream :
    (limit : ℕ) (ds chunks : List (List ℕ))
    → limit < 2 ^ 32
    → All (IsPayload limit) ds
    → flatten chunks ≡ stream ds
    → ((feed_all (new_receiver limit) chunks).events ≡ map good ds)
      × ((feed_all (new_receiver limit) chunks).buffer ≡ [])
unfolding new_receiver
feed_all-stream limit ds chunks small ok e =
    feed_all-Received chunks (new_receiver limit) ds small ok (IsPart-nil ds) e
