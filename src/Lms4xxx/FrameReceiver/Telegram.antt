-- ===== src/Lms4xxx/FrameReceiver/Telegram.antt =====
-- What lms4xxx_driver/src/frame_receiver.cpp delivers, against the format of a CoLa B frame.
use amiga_drivers.Prelude.{
  ℕ, suc, ◌+◌, ◌-◌, ◌≤◌, ◌<◌, ◌≡◌, refl, ap, true, List, [], ◌∷◌, ◌++◌, length, get_or, take, drop,
  drop-drop, get_or-drop, take-suc, length-drop, length-take, ◌==◌, arith, subst,
}
use amiga_drivers.Common.ByteUtil.{load_big_u32}
use amiga_drivers.Lms4xxx.ColaB.{compute_checksum, cola_b_stx}
use amiga_drivers.Lms4xxx.FrameReceiver.{
  FrameReceiver, RawFrame, write_pos, starts_stx, header_size, stx_size,
}
use amiga_drivers.Lms4xxx.FrameReceiver.Scan.{starts_stx_bytes}

-- A frame in the format STX(4) Length(4) Data Checksum(1), with a length field that is the length of
-- the data, from 1 to the maximum, and the verdict that the checksum byte deserves.
pub record IsTelegram (max_frame_size : ℕ) (f : RawFrame) : Type 0 where
  pub length_field : List ℕ
  pub data_part : List ℕ
  pub checksum : ℕ
  pub layout : f.bytes ≡ cola_b_stx ++ (length_field ++ (data_part ++ (checksum ∷ [])))
  pub field_size : length length_field ≡ 4
  pub field_value : load_big_u32 length_field ≡ length data_part
  pub not_empty : 0 < length data_part
  pub bounded : length data_part ≤ max_frame_size
  pub verdict : f.checksum_valid ≡ (compute_checksum data_part == checksum)

-- The frame that `deliver` hands to the callback.
abbrev pub frame_at : FrameReceiver → ℕ → ℕ → RawFrame
frame_at r pos n = record {
  bytes = take (header_size + n + 1) (drop pos r.buffer);
  checksum_valid =
      compute_checksum (take n (drop (pos + header_size) r.buffer))
      == get_or r.buffer (pos + header_size + n) 0;
}

-- The frame in terms of the bytes `s` from its position on.
unfoldable pub frame_in : List ℕ → ℕ → RawFrame
frame_in s n = record {
  bytes = take (header_size + n + 1) s;
  checksum_valid = compute_checksum (take n (drop header_size s)) == get_or s (header_size + n) 0;
}

pub frame_at-frame_in :
    (r : FrameReceiver) (pos n : ℕ) → frame_at r pos n ≡ frame_in (drop pos r.buffer) n
unfolding frame_in
frame_at-frame_in r pos n =
    let e : pos + header_size + n ≡ pos + (header_size + n) = omega arith in
    rw (drop-drop pos header_size r.buffer, get_or-drop pos (header_size + n) r.buffer 0, e)

frame_in-IsTelegram :
    (limit n a b c d : ℕ) (rest : List ℕ)
    → load_big_u32 (a ∷ b ∷ c ∷ d ∷ rest) ≡ n
    → 0 < n
    → n ≤ limit
    → n < length rest
    → IsTelegram limit (frame_in (0x02 ∷ 0x02 ∷ 0x02 ∷ 0x02 ∷ a ∷ b ∷ c ∷ d ∷ rest) n)
unfolding frame_in load_big_u32
frame_in-IsTelegram limit n a b c d rest e pos le lt = record {
  length_field = a ∷ b ∷ c ∷ d ∷ [];
  data_part = take n rest;
  checksum = get_or rest n 0;
  layout =
      let s : header_size + n + 1 ≡ suc (suc (suc (suc (suc (suc (suc (suc (suc n)))))))) =
        omega arith in
      rw s (ap (λ t. 0x02 ∷ 0x02 ∷ 0x02 ∷ 0x02 ∷ a ∷ b ∷ c ∷ d ∷ t) (take-suc n rest 0 lt));
  field_size = refl;
  field_value = omega (arith, length-take n rest);
  not_empty = omega (arith, length-take n rest);
  bounded = omega (arith, length-take n rest);
  verdict =
      let s : header_size + n ≡ suc (suc (suc (suc (suc (suc (suc (suc n))))))) = omega arith in
      rw s refl;
}

after_stx :
    (limit n : ℕ) (rest : List ℕ)
    → load_big_u32 rest ≡ n
    → 0 < n
    → n ≤ limit
    → 5 + n ≤ length rest
    → IsTelegram limit (frame_in (0x02 ∷ 0x02 ∷ 0x02 ∷ 0x02 ∷ rest) n)
unfolding load_big_u32
after_stx limit n [] e pos le h = absurd (omega arith)
after_stx limit n (a ∷ []) e pos le h = absurd (omega arith)
after_stx limit n (a ∷ b ∷ []) e pos le h = absurd (omega arith)
after_stx limit n (a ∷ b ∷ c ∷ []) e pos le h = absurd (omega arith)
after_stx limit n (a ∷ b ∷ c ∷ d ∷ rest) e pos le h =
    frame_in-IsTelegram limit n a b c d rest e pos le (omega arith)

from_stx :
    (limit n : ℕ) (s : List ℕ)
    → starts_stx s ≡ true
    → load_big_u32 (drop stx_size s) ≡ n
    → 0 < n
    → n ≤ limit
    → 9 + n ≤ length s
    → IsTelegram limit (frame_in s n)
from_stx limit n s stx e pos le h =
    let (rest, q) = starts_stx_bytes s stx in
    rw q (
      after_stx limit n rest (subst (λ t. load_big_u32 (drop stx_size t) ≡ n) q e) pos le
        (omega (arith, ap length q)))

-- A frame that passes the tests of `TryExtractFrame` at an STX is a telegram.
pub frame_at-IsTelegram :
    (r : FrameReceiver) (pos n : ℕ)
    → starts_stx (drop pos r.buffer) ≡ true
    → load_big_u32 (drop (pos + stx_size) r.buffer) ≡ n
    → 0 < n
    → n ≤ r.max_frame_size
    → header_size + n + 1 ≤ write_pos r - pos
    → IsTelegram r.max_frame_size (frame_at r pos n)
frame_at-IsTelegram r pos n stx e low high fits = rw (frame_at-frame_in r pos n) (
    from_stx r.max_frame_size n (drop pos r.buffer) stx (rw (drop-drop pos stx_size r.buffer) e) low
      high (omega (arith, length-drop pos r.buffer)))
