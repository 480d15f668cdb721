-- ===== src/Asterx/SbfParsers/Status.antt =====
-- What a receiver status that asterx_driver/src/sbf_parsers.cpp accepts holds.
use amiga_drivers.Prelude.{
  ℕ, zero, suc, ◌+◌, ◌-◌, ◌*◌, ◌≤◌, ◌<◌, ◌≡◌, refl, ap, ◌∙◌, true, not, ◌&&◌, Bool-cases, inl, inr,
  List, length, drop, ltb, ◌==◌, arith,
}
use amiga_drivers.Asterx.SbfTypes.{BlockHeader, ReceiverStatus, id_receiver_status}
use amiga_drivers.Asterx.SbfParsers.{
  Reader, Got, got, refused, stray, Read, and_then, check, check_ok, load, skip, read_agc_state,
  read_agc_states, read_receiver_status_body, parse_receiver_status,
}
use amiga_drivers.Common.ByteUtil.{load_little_u16}
use amiga_drivers.Asterx.SbfParsers.Padding.{header_at, declares, read_frame_header-at_start}

-- What holds of a result, if there is one.
abbrev Yields : {A : Type 0} → (A → Reader → Type 0) → Got A → Type 0
Yields q (got a r) = q a r
Yields q refused = Unit {0}
Yields q stray = Unit {0}

Yields-and_then :
    {A B : Type 0} (p : A → Reader → Type 0) (q : B → Reader → Type 0) (x : Got A) (f : A → Read B)
    → Yields p x
    → ((a : A) (r : Reader) → p a r → Yields q (f a r))
    → Yields q (and_then x f)
Yields-and_then p q (got a r) f h k = k a r h
Yields-and_then p q refused f h k = tt
Yields-and_then p q stray f h k = tt

-- So many bytes further, unless there were too few.
record Moved (k : ℕ) (r s : Reader) : Type 0 where
  size : s.size ≡ r.size
  moved : s.ok ≡ true → (r.ok ≡ true) × (s.pos ≡ r.pos + k)
  fits : s.ok ≡ true → r.pos ≤ r.size → s.pos ≤ s.size

Moved-trans : (j k : ℕ) (r s t : Reader) → Moved j r s → Moved k s t → Moved (j + k) r t
Moved-trans j k r s t m n = record {
  size = n.size ∙ m.size;
  moved = λ h. ground (arith, n.moved h, m.moved (n.moved h).0);
  fits = λ h w. n.fits h (m.fits (n.moved h).0 w);
}

-- The padding makes up the declared length of a sub-block.
padded : (n sb_length : ℕ) → (0 < n → 4 ≤ sb_length) → n * (4 + (sb_length - 4)) ≡ n * sb_length
padded zero sb_length h = omega arith
padded (suc n) sb_length h = ap (λ k. suc n * k) (omega (arith, h (omega arith)))

Moved-fits :
    (len k : ℕ) (r s : Reader)
    → r.pos ≡ 14
    → r.size ≡ len
    → 14 ≤ len
    → s.ok ≡ true
    → Moved (18 + k) r s
    → 32 + k ≤ len
Moved-fits len k r s p z long ok m =
    omega (arith, p, z, long, (m.moved ok).1, m.fits ok (omega (arith, p, z, long)), m.size)

-- The sub-blocks that are announced are all there and lie in the frame.
abbrev pub Consistent : ReceiverStatus → Type 0
Consistent st =
    (length st.agc_state ≡ st.n)
    × ((32 + st.n * st.sb_length ≤ st.block_header.length)
        × ((0 < st.n → 4 ≤ st.sb_length) × (st.block_header.id ≡ id_receiver_status)))

module _ (mem : List ℕ) where
  load-Moved :
      (k : ℕ) (value : List ℕ → ℕ) (r : Reader) → Yields (λ _ s. Moved k r s) (load mem k value r)
  unfolding load
  load-Moved k value r = ground arith

  read_agc_state-Moved :
      (padding : ℕ) (r : Reader)
      → Yields (λ _ s. Moved (4 + padding) r s) (read_agc_state mem padding r)
  unfolding read_agc_state load skip
  read_agc_state-Moved padding r = ground arith

  read_agc_states-Moved :
      (left padding : ℕ) (r : Reader)
      → Yields
          (λ xs s. (length xs ≡ left) × Moved (left * (4 + padding)) r s)
          (read_agc_states mem left padding r)
  unfolding read_agc_states
  read_agc_states-Moved zero padding r = ground arith
  read_agc_states-Moved (suc left) padding r =
      Yields-and_then (λ _ s. Moved (4 + padding) r s) _ (read_agc_state mem padding r) _
        (read_agc_state-Moved padding r)
        (λ a s m.
          Yields-and_then (λ xs t. (length xs ≡ left) × Moved (left * (4 + padding)) s t) _
            (read_agc_states mem left padding s) _ (read_agc_states-Moved left padding s)
            (λ xs t n. (
              ap suc n.0,
              ground (arith, Moved-trans (4 + padding) (left * (4 + padding)) r s t m n.1),
            )))

  -- A read, and what follows it.
  Yields-load :
      {B : Type 0} (q : B → Reader → Type 0) (k : ℕ) (value : List ℕ → ℕ) (f : ℕ → Read B)
      (r : Reader)
      → ((a : ℕ) (s : Reader) → Moved k r s → Yields q (f a s))
      → Yields q (and_then (load mem k value r) f)
  Yields-load q k value f r h =
      Yields-and_then (λ _ s. Moved k r s) q (load mem k value r) f (load-Moved k value r) h

  body-Consistent :
      (h : BlockHeader) (r : Reader)
      → r.size ≡ h.length
      → r.pos ≡ 14
      → 14 ≤ h.length
      → Yields (λ st _. Consistent st) (read_receiver_status_body mem h r)
  unfolding read_receiver_status_body
  body-Consistent h r size pos long =
      Yields-and_then (λ _ s. (s ≡ r) × (h.id ≡ id_receiver_status)) _
        (check (h.id == id_receiver_status) r) _ (ground arith)
        (λ _ s0 e. Yields-load _ 1 _ _ s0 (λ cpu_load r1 m1.
          Yields-load _ 1 _ _ r1 (λ ext_error r2 m2. Yields-load _ 4 _ _ r2 (λ up_time r3 m3.
            Yields-load _ 4 _ _ r3 (λ rx_status r4 m4. Yields-load _ 4 _ _ r4 (λ rx_error r5 m5.
              Yields-load _ 1 _ _ r5 (λ n r6 m6. Yields-load _ 1 _ _ r6 (λ sb_length r7 m7.
                Yields-load _ 1 _ _ r7 (λ cmd_count r8 m8.
                  Yields-load _ 1 _ _ r8 (λ temperature r9 m9.
                    Yields-and_then (λ _ t. (t ≡ r9) × (r9.ok ≡ true)) _ (check_ok r9) _
                      (ground arith)
                      (λ _ t c.
                        Yields-and_then (λ _ u. (u ≡ t) × ((0 < n → 4 ≤ sb_length))) _
                          (check (not (ltb 0 n && ltb sb_length 4)) t) _ (ground arith)
                          (λ _ u d.
                            Yields-and_then
                              (λ xs v. (length xs ≡ n) × Moved (n * (4 + (sb_length - 4))) u v) _
                              (read_agc_states mem n (sb_length - 4) u) _
                              (read_agc_states-Moved n (sb_length - 4) u)
                              (λ agc v l.
                                Yields-and_then (λ _ w. (w ≡ v) × (v.ok ≡ true)) _ (check_ok v) _
                                  (ground arith)
                                  (λ _ w o.
                                    let m : Moved 18 s0 r9 =
                                      ground (arith, m1, m2, m3, m4, m5, m6, m7, m8, m9) in
                                    let k : Moved (n * (4 + (sb_length - 4))) r9 v =
                                      ground (arith, l, c, d) in
                                    (
                                      l.0,
                                      (
                                        Moved-fits h.length (n * sb_length) s0 v
                                            (ground (arith, e, pos)) (ground (arith, e, size)) long
                                            o.1
                                            (ground (
                                              arith,
                                              padded n sb_length d.1,
                                              Moved-trans 18 (n * (4 + (sb_length - 4))) s0 r9 v m
                                                  k,
                                            )),
                                        (d.1, e.1),
                                      ),
                                    )))))))))))))))

-- A receiver status that is accepted has as many sub-blocks as it announces, all of them within the length
-- that the header declares, and its number is that of the block.
pub parse_receiver_status-Consistent :
    (data_ : List ℕ) (st : ReceiverStatus) (r : Reader)
    → parse_receiver_status data_ (length data_) ≡ got st r
    → Consistent st
unfolding parse_receiver_status
parse_receiver_status-Consistent data_ st r e =
    let h = header_at data_ in
    let len = load_little_u16 (drop 6 data_) in
    let from : Reader = record { size = len; pos = 14; ok = true } in
    elim (Bool-cases (declares data_ (length data_))) [
      | inr no_frame ↦
          ground (arith, no_frame, e, read_frame_header-at_start data_ (length data_) (omega arith))
      | inl frame ↦ ground (
        arith,
        frame,
        e,
        read_frame_header-at_start data_ (length data_) (omega arith),
        body-Consistent data_ h from refl refl (ground (arith, frame)),
      )
    ]
