-- ===== src/Lms4xxx/FrameReceiver/Aligned.antt =====
-- A round of the loop of `Feed` in lms4xxx_driver/src/frame_receiver.cpp where the bytes from the scan
-- position on begin an encoded frame.
use amiga_drivers.Prelude.{
  ℕ, suc, ◌+◌, ◌-◌, ◌%◌, ◌^◌, ◌≤◌, ◌<◌, ◌≡◌, refl, ap, sym, ◌∙◌, true, false, Bool-cases, inl, inr,
  List, [], ◌∷◌, ◌++◌, length, length-append, get_or, take, drop, drop-drop, length-drop,
  take-append-drop, take-append_length, append_prefix, ltb, ltb→lt, arith,
}
use amiga_drivers.Common.ByteUtil.{load_big_u32, store_big_u32}
use amiga_drivers.Common.ByteUtil.RoundTrip.{load_big_u32-store_big_u32}
use amiga_drivers.Lms4xxx.ColaB.{compute_checksum, cola_b_stx, frame_of}
use amiga_drivers.Lms4xxx.FrameReceiver.{
  FrameReceiver, Event, on_frame, write_pos, header_size, stx_size, report_garbage, starts_stx,
  find_stx_from, find_stx, deliver, try_extract_frame, round_no_stx, skipped, round_stx, round,
}
use amiga_drivers.Lms4xxx.FrameReceiver.Telegram.{frame_at, frame_in, frame_at-frame_in}

-- The frame callback's argument for a data part that arrived whole.
abbrev pub good : List ℕ → Event
good d = on_frame (record { bytes = frame_of d; checksum_valid = true })

-- A data part whose frame the receiver may deliver.
abbrev pub IsPayload : ℕ → List ℕ → Type 0
IsPayload limit d = (0 < length d) × (length d ≤ limit)

pub length-frame_of : (d : List ℕ) → length (frame_of d) ≡ 9 + length d
length-frame_of d = omega (arith, length-append d (compute_checksum d ∷ []))

-- Fewer than four bytes hold no STX.
short-starts_stx : (s : List ℕ) → length s < 4 → starts_stx s ≡ false
unfolding starts_stx
short-starts_stx [] h = refl
short-starts_stx (a ∷ []) h = refl
short-starts_stx (a ∷ b ∷ []) h = refl
short-starts_stx (a ∷ b ∷ c ∷ []) h = refl
short-starts_stx (a ∷ b ∷ c ∷ d ∷ s) h = absurd (omega arith)

find_stx_from_short : (s : List ℕ) (i : ℕ) → length s < 4 → find_stx_from s i ≡ i + length s
unfolding find_stx_from
find_stx_from_short [] i h = omega arith
find_stx_from_short (b ∷ s) i h =
    rw (short-starts_stx (b ∷ s) h) (omega (arith, find_stx_from_short s (i + 1) (omega arith)))

find_stx_from_here : (s : List ℕ) (i : ℕ) → starts_stx s ≡ true → find_stx_from s i ≡ i
unfolding find_stx_from
find_stx_from_here [] i h = refl
find_stx_from_here (b ∷ s) i h = rw h refl

-- Where the tail is too short for an STX, the round leaves all as it is and stops.
round_short :
    (r : FrameReceiver) (p : ℕ)
    → p ≤ write_pos r
    → write_pos r - p < 4
    → round r p ≡ record { receiver = r; scan_pos = p; goes_on = false }
unfolding round round_no_stx find_stx report_garbage
round_short r p h short = ground (
  arith,
  find_stx_from_short (drop p r.buffer) p (omega (arith, length-drop p r.buffer)),
  length-drop p r.buffer,
)

skipped_none : (r : FrameReceiver) (p : ℕ) → skipped r p p ≡ r
unfolding skipped
skipped_none r p = ground arith

-- At an STX nothing is skipped.
round_here :
    (r : FrameReceiver) (p : ℕ)
    → p < write_pos r
    → starts_stx (drop p r.buffer) ≡ true
    → round r p ≡ round_stx r p p
unfolding round find_stx
round_here r p h stx = ground (arith, find_stx_from_here (drop p r.buffer) p stx)

round_stx_waits :
    (r : FrameReceiver) (p : ℕ)
    → try_extract_frame r p ≡ (r, 0)
    → round_stx r p p ≡ record { receiver = r; scan_pos = p; goes_on = false }
unfolding round_stx
round_stx_waits r p e = simp (skipped_none r p, e)

-- The bytes of a partial frame, as far as its length field.
header_known :
    (s future d more : List ℕ)
    → s ++ future ≡ frame_of d ++ more
    → 8 ≤ length s
    → s ≡ cola_b_stx ++ (store_big_u32 (length d % 2 ^ 32) ++ drop 8 s)
header_known s future d more e h =
    sym (take-append-drop 8 s)
    ∙ ap (λ t. t ++ drop 8 s)
        (append_prefix s future (cola_b_stx ++ store_big_u32 (length d % 2 ^ 32))
          (d ++ (compute_checksum d ∷ []) ++ more) e h).0

stx_known :
    (s future d more : List ℕ)
    → s ++ future ≡ frame_of d ++ more
    → 4 ≤ length s
    → starts_stx s ≡ true
unfolding starts_stx
stx_known (x ∷ y ∷ z ∷ w ∷ s) future d more e h = ground arith
stx_known [] future d more e h = absurd (omega arith)
stx_known (x ∷ []) future d more e h = absurd (omega arith)
stx_known (x ∷ y ∷ []) future d more e h = absurd (omega arith)
stx_known (x ∷ y ∷ z ∷ []) future d more e h = absurd (omega arith)

length_known :
    (s future d more : List ℕ)
    → s ++ future ≡ frame_of d ++ more
    → 8 ≤ length s
    → length d < 2 ^ 32
    → load_big_u32 (drop 4 s) ≡ length d
length_known s future d more e h b =
    rw (header_known s future d more e h)
      (load_big_u32-store_big_u32 (length d % 2 ^ 32) (drop 8 s) (omega arith) ∙ omega arith)

-- Fewer bytes than the frame has: nothing is taken.
try_extract_frame_partial :
    (r : FrameReceiver) (p : ℕ) (future d more : List ℕ)
    → p ≤ write_pos r
    → r.max_frame_size < 2 ^ 32
    → IsPayload r.max_frame_size d
    → drop p r.buffer ++ future ≡ frame_of d ++ more
    → write_pos r - p < 9 + length d
    → try_extract_frame r p ≡ (r, 0)
unfolding try_extract_frame
try_extract_frame_partial r p future d more h limit ok e part =
    elim (Bool-cases (ltb (write_pos r - p) header_size)) [
      | inl short ↦ rw short refl
      | inr long ↦ rw (long, sized (ground arith)) (ground arith)
    ]
  where
    sized : 8 ≤ write_pos r - p → load_big_u32 (drop (p + stx_size) r.buffer) ≡ length d
    sized w =
        ap load_big_u32 (sym (drop-drop p stx_size r.buffer))
        ∙ length_known (drop p r.buffer) future d more e (omega (arith, length-drop p r.buffer))
            (omega arith)

get_or_after : (d t : List ℕ) (c : ℕ) → get_or ((d ++ (c ∷ [])) ++ t) (length d) 0 ≡ c
get_or_after [] t c = refl
get_or_after (x ∷ d) t c = get_or_after d t c

take_before : (d t : List ℕ) (c : ℕ) → take (length d) ((d ++ (c ∷ [])) ++ t) ≡ d
take_before [] t c = refl
take_before (x ∷ d) t c = ap (λ k. x ∷ k) (take_before d t c)

frame_in-frame_of :
    (d t : List ℕ)
    → frame_in (frame_of d ++ t) (length d) ≡ record { bytes = frame_of d; checksum_valid = true }
unfolding frame_in
frame_in-frame_of d t =
    let a : header_size + length d + 1 ≡ length (frame_of d) = omega (arith, length-frame_of d) in
    let b : header_size + length d ≡ suc (suc (suc (suc (suc (suc (suc (suc (length d)))))))) =
      omega arith in
    ground (
      arith,
      ap (λ k. take k (frame_of d ++ t)) a,
      take-append_length (frame_of d) t,
      take_before d t (compute_checksum d),
      ap (λ k. get_or (frame_of d ++ t) k 0) b,
      get_or_after d t (compute_checksum d),
    )

deliver-good :
    (r : FrameReceiver) (p : ℕ) (d t : List ℕ)
    → drop p r.buffer ≡ frame_of d ++ t
    → deliver r p (length d) ≡ (
      record r {
        consecutive_framing_errors = 0;
        error_covered_until = 0;
        events = r.events ++ (good d ∷ []);
      },
      9 + length d,
    )
unfolding deliver
deliver-good r p d t e = ground (arith, ap (λ f. f.bytes) same, ap (λ f. f.checksum_valid) same)
  where
    same : frame_at r p (length d) ≡ record { bytes = frame_of d; checksum_valid = true }
    same =
        frame_at-frame_in r p (length d) ∙ ap (λ s. frame_in s (length d)) e ∙ frame_in-frame_of d t

pub frame_front :
    (s future d more : List ℕ)
    → s ++ future ≡ frame_of d ++ more
    → 9 + length d ≤ length s
    → (s ≡ frame_of d ++ drop (9 + length d) s) × (drop (9 + length d) s ++ future ≡ more)
frame_front s future d more e h =
    let p = append_prefix s future (frame_of d) more e (omega (arith, length-frame_of d)) in
    let n : 9 + length d ≡ length (frame_of d) = omega (arith, length-frame_of d) in
    (
      rw n (
          sym (take-append-drop (length (frame_of d)) s)
          ∙ ap (λ t. t ++ drop (length (frame_of d)) s) p.0),
      rw n p.1,
    )

try_extract_frame_whole :
    (r : FrameReceiver) (p : ℕ) (future d more : List ℕ)
    → r.max_frame_size < 2 ^ 32
    → IsPayload r.max_frame_size d
    → drop p r.buffer ++ future ≡ frame_of d ++ more
    → 9 + length d ≤ write_pos r - p
    → try_extract_frame r p ≡ deliver r p (length d)
unfolding try_extract_frame
try_extract_frame_whole r p future d more limit ok e whole = rw sized (ground arith)
  where
    sized : load_big_u32 (drop (p + stx_size) r.buffer) ≡ length d
    sized =
        ap load_big_u32 (sym (drop-drop p stx_size r.buffer))
        ∙ length_known (drop p r.buffer) future d more e (omega (arith, length-drop p r.buffer))
            (omega arith)

-- All bytes of the frame: it is delivered, and the scan goes on behind it.
pub round_whole :
    (r : FrameReceiver) (p : ℕ) (future d more : List ℕ)
    → p ≤ write_pos r
    → r.max_frame_size < 2 ^ 32
    → IsPayload r.max_frame_size d
    → drop p r.buffer ++ future ≡ frame_of d ++ more
    → 9 + length d ≤ write_pos r - p
    → round r p ≡ record {
      receiver = record r {
        consecutive_framing_errors = 0;
        error_covered_until = 0;
        events = r.events ++ (good d ∷ []);
      };
      scan_pos = p + (9 + length d);
      goes_on = true;
    }
unfolding round_stx
round_whole r p future d more h limit ok e whole =
    round_here r p (omega arith)
      (stx_known s future d more e (omega (arith, length-drop p r.buffer)))
    ∙ simp (skipped_none r p, taken) (ground arith)
  where
    s : List ℕ
    s = drop p r.buffer

    taken : try_extract_frame r p ≡ (
      record r {
        consecutive_framing_errors = 0;
        error_covered_until = 0;
        events = r.events ++ (good d ∷ []);
      },
      9 + length d,
    )
    taken =
        try_extract_frame_whole r p future d more limit ok e whole
        ∙ deliver-good r p d (drop (9 + length d) s)
            (frame_front s future d more e (omega (arith, length-drop p r.buffer))).0

-- Not all bytes of the frame: the round leaves all as it is and stops.
pub round_partial :
    (r : FrameReceiver) (p : ℕ) (future d more : List ℕ)
    → p < write_pos r
    → r.max_frame_size < 2 ^ 32
    → IsPayload r.max_frame_size d
    → drop p r.buffer ++ future ≡ frame_of d ++ more
    → write_pos r - p < 9 + length d
    → round r p ≡ record { receiver = r; scan_pos = p; goes_on = false }
round_partial r p future d more h limit ok e part = elim (Bool-cases (ltb (write_pos r - p) 4)) [
  | inl short ↦ round_short r p (omega arith) (ltb→lt _ _ short)
  | inr long ↦
      round_here r p h
        (stx_known (drop p r.buffer) future d more e (ground (arith, length-drop p r.buffer)))
      ∙ round_stx_waits r p
          (try_extract_frame_partial r p future d more (omega arith) limit ok e part)
]
