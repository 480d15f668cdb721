-- ===== src/Lms4xxx/FrameReceiver/Scan.antt =====
-- The scan for STX in lms4xxx_driver/src/frame_receiver.cpp.
use amiga_drivers.Prelude.{
  ℕ, suc, ◌+◌, ◌-◌, ◌≤◌, ◌≡◌, ◌≢◌, inl, inr, true, Bool-cases, List, [], ◌∷◌, length, drop,
  drop-drop, length-drop, arith,
}
use amiga_drivers.Lms4xxx.FrameReceiver.{
  FrameReceiver, write_pos, starts_stx, find_stx_from, find_stx,
}

-- A result of the scan of `bs` from position `i`: the end, or a place where an STX stands.
record Found (bs : List ℕ) (i j : ℕ) : Type 0 where
  above : i ≤ j
  below : j ≤ i + length bs
  at_stx : j ≢ i + length bs → starts_stx (drop (j - i) bs) ≡ true

find_stx_from-Found : (bs : List ℕ) (i : ℕ) → Found bs i (find_stx_from bs i)
unfolding find_stx_from
find_stx_from-Found [] i = record {
  above = omega arith;
  below = omega arith;
  at_stx = λ h. absurd (h (omega arith));
}
find_stx_from-Found (b ∷ bs) i = elim (Bool-cases (starts_stx (b ∷ bs))) [
  | inl e ↦ rw e (record {
    above = omega arith;
    below = omega arith;
    at_stx = λ h. let z : i - i ≡ 0 = omega arith in rw z e;
  })
  | inr e ↦ rw e (later (find_stx_from bs (i + 1)) (find_stx_from-Found bs (i + 1)))
]
  where
    later : (j : ℕ) → Found bs (i + 1) j → Found (b ∷ bs) i j
    later j f = record {
      above = omega (arith, f.above);
      below = omega (arith, f.below);
      at_stx = λ h.
          let s : j - i ≡ suc (j - (i + 1)) = omega (arith, f.above) in
          rw s (f.at_stx (λ q. h (omega arith)));
    }

pub find_stx_above : (r : FrameReceiver) (p : ℕ) → p ≤ find_stx r p
unfolding find_stx
find_stx_above r p = (find_stx_from-Found (drop p r.buffer) p).above

pub find_stx_below : (r : FrameReceiver) (p : ℕ) → p ≤ write_pos r → find_stx r p ≤ write_pos r
unfolding find_stx
find_stx_below r p h =
    omega (arith, (find_stx_from-Found (drop p r.buffer) p).below, length-drop p r.buffer)

pub find_stx_at :
    (r : FrameReceiver) (p : ℕ)
    → p ≤ write_pos r
    → find_stx r p ≢ write_pos r
    → starts_stx (drop (find_stx r p) r.buffer) ≡ true
unfolding find_stx
find_stx_at r p h ne = at_place
  where
    j : ℕ
    j = find_stx_from (drop p r.buffer) p

    found : Found (drop p r.buffer) p j
    found = find_stx_from-Found (drop p r.buffer) p

    place : drop (j - p) (drop p r.buffer) ≡ drop j r.buffer
    place =
        let e : p + (j - p) ≡ j = omega (arith, found.above) in rw (drop-drop p (j - p) r.buffer, e)

    at_place : starts_stx (drop j r.buffer) ≡ true
    at_place = rw (← place) (found.at_stx (λ q. ne (omega (arith, length-drop p r.buffer))))

-- The bytes at an STX.
pub starts_stx_bytes :
    (s : List ℕ) → starts_stx s ≡ true → (rest : List ℕ) × (s ≡ 0x02 ∷ 0x02 ∷ 0x02 ∷ 0x02 ∷ rest)
unfolding starts_stx
starts_stx_bytes (a ∷ b ∷ c ∷ d ∷ rest) h = (rest, ground arith)
starts_stx_bytes [] h = absurd (cc)
starts_stx_bytes (a ∷ []) h = absurd (cc)
starts_stx_bytes (a ∷ b ∷ []) h = absurd (cc)
starts_stx_bytes (a ∷ b ∷ c ∷ []) h = absurd (cc)
