-- ===== src/Asterx/SbfParsers/Padding.antt =====
-- Where the parsers of asterx_driver/src/sbf_parsers.cpp read: never outside of the buffer, and never behind
-- the end that the frame's header declares.
use amiga_drivers.Prelude.{
  ℕ, zero, suc, ◌+◌, ◌/◌, ◌%◌, ◌^◌, ◌≤◌, ◌<◌, ◌≡◌, ◌≢◌, refl, sym, ◌∙◌, ap, Bool, true, ◌&&◌,
  Bool-cases, inl, inr, List, [], ◌∷◌, ◌++◌, length, length-append, get_or, get_or-drop, drop, leb,
  ◌==◌, if◌then◌else◌, arith,
}
use amiga_drivers.Common.ByteUtil.{load_little_u16, load_little_u32}
use amiga_drivers.Asterx.SbfTypes.{BlockHeader}
use amiga_drivers.Asterx.SbfParsers.{
  Reader, got, refused, stray, Read, ◌>>=◌, load, read_header, read_frame_header, at_start,
  read_ins_nav_geod_body, read_receiver_status_body, parse_ins_nav_geod, parse_receiver_status,
  parse_block_header,
}
use amiga_drivers.Asterx.SbfParsers.Local.{
  Agree, Within, IsWithin, Local, ins_nav_geod-Local, receiver_status-Local,
}

abbrev pub header_at : List ℕ → BlockHeader
header_at mem = record {
  sync_1 = get_or (drop 0 mem) 0 0;
  sync_2 = get_or (drop 1 mem) 0 0;
  crc = load_little_u16 (drop 2 mem);
  id = load_little_u16 (drop 4 mem) % 2 ^ 13;
  revision = load_little_u16 (drop 4 mem) / 2 ^ 13;
  length = load_little_u16 (drop 6 mem);
  tow = load_little_u32 (drop 8 mem);
  wnc = load_little_u16 (drop 12 mem);
}

abbrev pub has_header : List ℕ → ℕ → Bool
has_header mem size =
    leb 14 size && ((get_or (drop 0 mem) 0 0 == 36) && (get_or (drop 1 mem) 0 0 == 64))

read_header-at_start :
    (mem : List ℕ) (size : ℕ)
    → size ≤ length mem
    → read_header mem (at_start size) ≡ (
        if has_header mem size
        then got (header_at mem) (record { size = size; pos = 14; ok = true })
        else refused)
unfolding read_header load
read_header-at_start mem size h = ground arith

abbrev pub declares : List ℕ → ℕ → Bool
declares mem size =
    let len = load_little_u16 (drop 6 mem) in has_header mem size && (leb 14 len && leb len size)

pub read_frame_header-at_start :
    (mem : List ℕ) (size : ℕ)
    → size ≤ length mem
    → read_frame_header mem (at_start size) ≡ (
        if declares mem size
        then got
            (header_at mem)
            (record { size = load_little_u16 (drop 6 mem); pos = 14; ok = true })
        else refused)
unfolding read_frame_header
read_frame_header-at_start mem size h = ground (arith, read_header-at_start mem size h)

get_or-append_left :
    (i : ℕ) (xs ys : List ℕ) → i < length xs → get_or (xs ++ ys) i 0 ≡ get_or xs i 0
get_or-append_left i [] ys h = absurd (omega arith)
get_or-append_left zero (x ∷ xs) ys h = refl
get_or-append_left (suc i) (x ∷ xs) ys h = get_or-append_left i xs ys (omega arith)

Agree-refl : (n : ℕ) (mem : List ℕ) → n ≤ length mem → Agree n mem mem
Agree-refl n mem h = record { there = h; there_too = h; same = λ i _. refl }

Agree-padding : (frame padding : List ℕ) → Agree (length frame) (frame ++ padding) frame
Agree-padding frame padding = record {
  there = omega (arith, length-append frame padding);
  there_too = omega arith;
  same = λ i h. get_or-append_left i frame padding h;
}

byte :
    (frame padding : List ℕ) (p i : ℕ)
    → p + i < length frame
    → get_or (drop p (frame ++ padding)) i 0 ≡ get_or (drop p frame) i 0
byte frame padding p i h =
    get_or-drop p i (frame ++ padding) 0
    ∙ get_or-append_left (p + i) frame padding h
    ∙ sym (get_or-drop p i frame 0)

-- The header's bytes are the same.
header_bytes :
    (frame padding : List ℕ) → 14 ≤ length frame → header_at (frame ++ padding) ≡ header_at frame
unfolding load_little_u16 load_little_u32
header_bytes frame padding h =
    let at : (p i : ℕ)
        → p + i < 14
        → get_or (drop p (frame ++ padding)) i 0 ≡ get_or (drop p frame) i 0 =
      λ p i less. byte frame padding p i (omega (arith, h, less)) in
    ground (
      arith,
      at 0 0 (omega arith),
      at 1 0 (omega arith),
      at 2 0 (omega arith),
      at 2 1 (omega arith),
      at 4 0 (omega arith),
      at 4 1 (omega arith),
      at 6 0 (omega arith),
      at 6 1 (omega arith),
      at 8 0 (omega arith),
      at 8 1 (omega arith),
      at 8 2 (omega arith),
      at 8 3 (omega arith),
      at 12 0 (omega arith),
      at 12 1 (omega arith),
    )

module _ {A : Type 0} (body : List ℕ → BlockHeader → Read A)
    (body-Local : (n : ℕ) (mem other : List ℕ)
      → Agree n mem other
      → (h : BlockHeader) → Local n (body mem h) (body other h)) where
  body-IsWithin :
      (mem : List ℕ) (size : ℕ)
      → size ≤ length mem
      → IsWithin size ((read_frame_header mem >>= body mem) (at_start size))
  body-IsWithin mem size h =
      let len = load_little_u16 (drop 6 mem) in
      let r : Reader = record { size = len; pos = 14; ok = true } in
      elim (Bool-cases (declares mem size)) [
        | inr no_frame ↦ ground (arith, no_frame, read_frame_header-at_start mem size h)
        | inl frame ↦
            let l = body-Local size mem mem (Agree-refl size mem h) (header_at mem) in
            let w : Within size r = record {
              size = ground (arith, frame);
              pos = ground (arith, frame);
            } in
            ground (arith, frame, read_frame_header-at_start mem size h, l.safe r w)
      ]

  body-padding :
      (frame padding : List ℕ)
      → 14 ≤ length frame
      → load_little_u16 (drop 6 frame) ≡ length frame
      → (read_frame_header (frame ++ padding) >>= body (frame ++ padding))
          (at_start (length (frame ++ padding)))
        ≡ (read_frame_header frame >>= body frame) (at_start (length frame))
  body-padding frame padding h e =
      let n = length frame in
      let more = frame ++ padding in
      let r : Reader = record { size = n; pos = 14; ok = true } in
      let a = read_frame_header-at_start more (length more) (omega arith) in
      let b = read_frame_header-at_start frame n (omega arith) in
      let same = header_bytes frame padding h in
      let l = body-Local n more frame (Agree-padding frame padding) (header_at frame) in
      let w : Within n r = record { size = omega arith; pos = h } in
      let lens : length more ≡ n + length padding = length-append frame padding in
      let first : declares more (length more) ≡ declares frame n = ground (
        arith,
        lens,
        h,
        e,
        ap (λ x. x.sync_1) same,
        ap (λ x. x.sync_2) same,
        ap (λ x. x.length) same,
      ) in
      elim (Bool-cases (declares frame n)) [
        | inr no_frame ↦ ground (arith, no_frame, first, a, b)
        | inl whole ↦ ground (arith, whole, first, a, b, e, same, l.same r w)
      ]

-- Whatever bytes a buffer holds, none of the parsers reads a byte outside of it.
pub parse-IsWithin :
    (data_ : List ℕ)
    → (parse_block_header data_ (length data_) ≢ stray)
      × ((parse_ins_nav_geod data_ (length data_) ≢ stray)
          × (parse_receiver_status data_ (length data_) ≢ stray))
unfolding parse_block_header parse_ins_nav_geod parse_receiver_status
parse-IsWithin data_ =
    let n = length data_ in
    (
      ground (arith, read_header-at_start data_ n (omega arith)),
      (
        ground (
          arith,
          body-IsWithin read_ins_nav_geod_body (λ n mem other a. ins_nav_geod-Local a) data_ n
              (omega arith),
        ),
        ground (
          arith,
          body-IsWithin read_receiver_status_body (λ n mem other a. receiver_status-Local a) data_ n
              (omega arith),
        ),
      ),
    )

-- A frame whose header declares its own length is parsed in the same way whatever bytes follow it in the
-- buffer: no optional group and no sub-block is read from behind the frame's end.
pub parse-padding :
    (frame padding : List ℕ)
    → 14 ≤ length frame
    → load_little_u16 (drop 6 frame) ≡ length frame
    → (parse_ins_nav_geod (frame ++ padding) (length (frame ++ padding))
        ≡ parse_ins_nav_geod frame (length frame))
      × (parse_receiver_status (frame ++ padding) (length (frame ++ padding))
          ≡ parse_receiver_status frame (length frame))
unfolding parse_ins_nav_geod parse_receiver_status
parse-padding frame padding h e = (
  body-padding read_ins_nav_geod_body (λ n mem other a. ins_nav_geod-Local a) frame padding h e,
  body-padding read_receiver_status_body (λ n mem other a. receiver_status-Local a) frame padding h
      e,
)
