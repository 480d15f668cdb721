-- ===== src/Ebus/Recording/ReadBack.antt =====
-- What app/decoder/ebus/recording.py reads from the records that ebus_driver/src/raw_format.cpp lays out.
use amiga_drivers.Prelude.{
  ℕ, zero, suc, bit_xor, ◌%◌, ◌-◌, ◌+◌, ◌*◌, ◌^◌, ◌≤◌, ◌<◌, ◌≡◌, refl, sym, ap, ◌∙◌, Bool, true,
  false, not, ◌&&◌, ◌||◌, List, [], ◌∷◌, ◌++◌, append_assoc, length, length-append, take, drop,
  take-append_length, drop-append_length, bytes_eq, ltb, leb, ◌==◌, replicate, arith,
}
use amiga_drivers.Ebus.RawFormat.{
  put, crc_bits, table_entry, crc_loop, crc32c, record_prefix, make_record_header, record_bytes,
}
use amiga_drivers.Ebus.Recording.{table_value, checksum_loop, checksum, unpack, found, record_at}

table_value-crc_bits : (n value : ℕ) → table_value n value ≡ crc_bits n value
unfolding table_value crc_bits
table_value-crc_bits zero value = refl
table_value-crc_bits (suc n) value = table_value-crc_bits n _

checksum_loop-crc_loop :
    (bytes : List ℕ) (value : ℕ) → checksum_loop bytes value ≡ crc_loop bytes value
unfolding checksum_loop crc_loop table_entry
checksum_loop-crc_loop [] value = refl
checksum_loop-crc_loop (b ∷ bytes) value =
    rw (table_value-crc_bits 8 (bit_xor value b % 256)) (checksum_loop-crc_loop bytes _)

-- The reader's checksum is the writer's.
pub checksum-crc32c : (bytes : List ℕ) → checksum bytes 0 ≡ crc32c bytes
unfolding checksum crc32c
checksum-crc32c bytes = ap (λ x. 2 ^ 32 - 1 - x) (checksum_loop-crc_loop bytes (2 ^ 32 - 1))

pub crc32c_lt : (bytes : List ℕ) → crc32c bytes < 2 ^ 32
unfolding crc32c
crc32c_lt bytes = omega arith

unpack-put_4 : (v : ℕ) (rest : List ℕ) → v < 2 ^ 32 → unpack 4 (put 4 v ++ rest) ≡ v
unfolding unpack put
unpack-put_4 v rest h = omega arith

unpack-put_8 : (v : ℕ) (rest : List ℕ) → v < 2 ^ 64 → unpack 8 (put 8 v ++ rest) ≡ v
unfolding unpack put
unpack-put_8 v rest h = omega arith

-- What a record needs to be written and read.
pub record Sizes (metadata payload : List ℕ) (sequence : ℕ) : Type 0 where
  pub some_metadata : 0 < length metadata
  pub metadata_fits : length metadata ≤ 1024 * 1024
  pub payload_fits : length payload < 2 ^ 64
  pub sequence_fits : sequence < 2 ^ 64

-- What the reader finds in a header.
pub record Fields (m n sequence mc pc : ℕ) (raw : List ℕ) : Type 0 where
  pub size : length raw ≡ 48
  pub magic : take 4 raw ≡ 69 ∷ 66 ∷ 70 ∷ 82 ∷ []
  pub prefix_size : unpack 4 (drop 4 raw) ≡ 48
  pub metadata_size : unpack 4 (drop 8 raw) ≡ m
  pub flags : unpack 4 (drop 12 raw) ≡ 0
  pub payload_size : unpack 8 (drop 16 raw) ≡ n
  pub sequence_number : unpack 8 (drop 24 raw) ≡ sequence
  pub metadata_crc : unpack 4 (drop 32 raw) ≡ mc
  pub payload_crc : unpack 4 (drop 36 raw) ≡ pc
  pub crc : checksum (take 40 raw) 0 ≡ unpack 4 (drop 40 raw)
  pub reserved : unpack 4 (drop 44 raw) ≡ 0

pub make_record_header-Fields :
    (m n sequence mc pc : ℕ)
    → m < 2 ^ 32
    → n < 2 ^ 64
    → sequence < 2 ^ 64
    → mc < 2 ^ 32
    → pc < 2 ^ 32
    → Fields m n sequence mc pc (make_record_header m n sequence mc pc)
unfolding make_record_header record_prefix put
make_record_header-Fields m n sequence mc pc a b c d e =
    let prefix = record_prefix m n sequence mc pc in
    record {
      size = refl;
      magic = refl;
      prefix_size = unpack-put_4 48 _ (omega arith);
      metadata_size = unpack-put_4 m _ a;
      flags = unpack-put_4 0 _ (omega arith);
      payload_size = unpack-put_8 n _ b;
      sequence_number = unpack-put_8 sequence _ c;
      metadata_crc = unpack-put_4 mc _ d;
      payload_crc = unpack-put_4 pc _ e;
      crc =
          checksum-crc32c prefix
          ∙ sym (unpack-put_4 (crc32c prefix) (replicate 4 0) (crc32c_lt prefix));
      reserved = unpack-put_4 0 _ (omega arith);
    }

pub take_sum : {A : Type 0} (n : ℕ) (xs ys : List A) → length xs ≡ n → take n (xs ++ ys) ≡ xs
take_sum n xs ys h = ap (λ k. take k (xs ++ ys)) (sym h) ∙ take-append_length xs ys

pub drop_sum : {A : Type 0} (n : ℕ) (xs ys : List A) → length xs ≡ n → drop n (xs ++ ys) ≡ ys
drop_sum n xs ys h = ap (λ k. drop k (xs ++ ys)) (sym h) ∙ drop-append_length xs ys

pub same_number : (a b : ℕ) → a ≡ b → (a == b) ≡ true
same_number a b h = ground (arith, h)

pub not_longer : (a b : ℕ) → a ≤ b → ltb b a ≡ false
not_longer a b h = ground (arith, h)

-- The tests of a prefix, for the fields that it has.
pub prefix_passes :
    (m n sequence mc pc : ℕ) (raw : List ℕ)
    → Fields m n sequence mc pc raw
    → 0 < m
    → m ≤ 1024 * 1024
    → (not (bytes_eq (take 4 raw) (69 ∷ 66 ∷ 70 ∷ 82 ∷ []))
        || (not (unpack 4 (drop 4 raw) == 48)
            || (not (unpack 4 (drop 12 raw) == 0)
                || (not (unpack 4 (drop 44 raw) == 0)
                    || not (
                        ltb 0 (unpack 4 (drop 8 raw))
                        && leb (unpack 4 (drop 8 raw)) (1024 * 1024))))))
      ≡ false
prefix_passes m n sequence mc pc raw f a b =
    rw f.magic
      (rw f.prefix_size (rw f.flags (rw f.reserved (rw f.metadata_size (ground (arith, a, b))))))

module _ (accepts : List ℕ → ℕ → Bool) where
  -- A prefix with these fields, and enough bytes behind it.
  record_at-Fields :
      (offset m n sequence mc pc : ℕ) (bytes raw more metadata : List ℕ) (live : Bool)
      → take 48 bytes ≡ raw
      → drop 48 bytes ≡ more
      → Fields m n sequence mc pc raw
      → take m more ≡ metadata
      → checksum metadata 0 ≡ mc
      → 0 < m
      → m ≤ 1024 * 1024
      → 48 + m + n ≤ length bytes
      → accepts metadata n ≡ true
      → record_at accepts offset bytes live
        ≡ found (record {
          offset = offset;
          sequence = sequence;
          metadata_size = m;
          payload_size = n;
          payload_crc32c = pc;
        })
  unfolding record_at
  record_at-Fields offset m n sequence mc pc bytes raw more metadata live t d f k c a b enough ok =
      let passes = prefix_passes m n sequence mc pc raw f a b in
      rw t (
        rw d (
          rw passes (
            rw f.size (
              rw f.crc (
                rw f.metadata_size (
                  rw f.payload_size (
                    rw k (
                      rw f.metadata_crc (
                        rw f.sequence_number (
                          rw f.payload_crc (
                            rw (same_number (unpack 4 (drop 40 raw)) (unpack 4 (drop 40 raw)) refl)
                              (rw (not_longer (48 + m + n) (length bytes) enough) (
                                rw (same_number (checksum metadata 0) mc c)
                                  (rw ok refl))))))))))))))

  pub record_at-record_bytes :
      (offset sequence : ℕ) (metadata payload rest : List ℕ) (live : Bool)
      → Sizes metadata payload sequence
      → accepts metadata (length payload) ≡ true
      → record_at accepts offset (record_bytes sequence metadata payload ++ rest) live
        ≡ found (record {
          offset = offset;
          sequence = sequence;
          metadata_size = length metadata;
          payload_size = length payload;
          payload_crc32c = crc32c payload;
        })
  unfolding record_at record_bytes
  record_at-record_bytes offset sequence metadata payload rest live s ok =
      let m = length metadata in
      let n = length payload in
      let raw = make_record_header m n sequence (crc32c metadata) (crc32c payload) in
      let f =
        make_record_header-Fields m n sequence (crc32c metadata) (crc32c payload)
          (omega (arith, s.metadata_fits)) s.payload_fits s.sequence_fits (crc32c_lt metadata)
          (crc32c_lt payload) in
      let body = metadata ++ payload in
      let whole : (raw ++ body) ++ rest ≡ raw ++ (metadata ++ (payload ++ rest)) =
        append_assoc raw body rest ∙ ap (λ t. raw ++ t) (append_assoc metadata payload rest) in
      let more = metadata ++ (payload ++ rest) in
      let long : 48 + m + n ≤ length (raw ++ (metadata ++ (payload ++ rest))) = omega (
        arith,
        f.size,
        length-append raw more,
        length-append metadata (payload ++ rest),
        length-append payload rest,
      ) in
      rw whole (
        record_at-Fields offset m n sequence (crc32c metadata) (crc32c payload) (raw ++ more) raw
          more metadata live (take_sum 48 raw more f.size) (drop_sum 48 raw more f.size) f
          (take-append_length metadata (payload ++ rest)) (checksum-crc32c metadata) s.some_metadata
          s.metadata_fits long ok)
