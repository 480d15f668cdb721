-- ===== src/Ebus/Recording/Torn.antt =====
-- What app/decoder/ebus/recording.py reads from a file that ebus_driver/src/raw_recorder.cpp is still writing.
use amiga_drivers.Prelude.{
  ℕ, zero, suc, ◌+◌, ◌*◌, ◌≤◌, ◌<◌, ◌≡◌, refl, sym, ap, ◌∙◌, Bool, true, false, Option, none, some,
  List, [], ◌∷◌, ◌++◌, append_assoc, length, length-append, length-take, take, drop,
  drop-append_length, ltb, ◌==◌, Bool-cases, inl, inr, arith,
}
use amiga_drivers.Ebus.RawFormat.{crc32c, make_record_header, record_bytes}
use amiga_drivers.Ebus.Recording.{unpack, Record, found, none_yet, record_at, scan, out_of_order}
use amiga_drivers.Ebus.Recording.ReadBack.{
  Sizes, Fields, make_record_header-Fields, crc32c_lt, prefix_passes, same_number, take_sum,
  record_at-record_bytes,
}

shorter : (a b : ℕ) → a < b → ltb a b ≡ true
shorter a b h = ground (arith, h)

other_number : (a b : ℕ) → a < b → (a == b) ≡ false
other_number a b h = ground (arith, h)

is_shorter : (a b : ℕ) → ltb a b ≡ true → a < b
is_shorter a b h = ground (arith, h)

is_not_shorter : (a b : ℕ) → ltb a b ≡ false → b ≤ a
is_not_shorter a b h = ground (arith, h)

take-take : {A : Type 0} (n k : ℕ) (xs : List A) → n ≤ k → take n (take k xs) ≡ take n xs
take-take zero k xs h = refl
take-take (suc n) zero xs h = absurd (omega arith)
take-take (suc n) (suc k) [] h = refl
take-take (suc n) (suc k) (x ∷ xs) h = ap (λ t. x ∷ t) (take-take n k xs (omega arith))

module _ (accepts : List ℕ → ℕ → Bool) where
  -- Less than a prefix.
  record_at_short :
      (offset : ℕ) (bytes : List ℕ)
      → length bytes < 48
      → record_at accepts offset bytes true ≡ none_yet
  unfolding record_at
  record_at_short offset bytes h =
      rw (other_number (length (take 48 bytes)) 48 (omega (arith, length-take 48 bytes, h))) refl

  -- A whole prefix, and less than it announces.
  record_at_cut :
      (offset m n sequence mc pc : ℕ) (bytes raw : List ℕ)
      → take 48 bytes ≡ raw
      → Fields m n sequence mc pc raw
      → 0 < m
      → m ≤ 1024 * 1024
      → length bytes < 48 + m + n
      → record_at accepts offset bytes true ≡ none_yet
  unfolding record_at
  record_at_cut offset m n sequence mc pc bytes raw t f a b h =
      let passes = prefix_passes m n sequence mc pc raw f a b in
      rw t (
        rw passes (
          rw f.size (
            rw f.crc (
              rw f.metadata_size (
                rw f.payload_size (
                  rw (same_number (unpack 4 (drop 40 raw)) (unpack 4 (drop 40 raw)) refl)
                    (rw (shorter (length bytes) (48 + m + n) h) refl)))))))

  length-record_bytes :
      (sequence : ℕ) (metadata payload : List ℕ)
      → Sizes metadata payload sequence
      → length (record_bytes sequence metadata payload) ≡ 48 + length metadata + length payload
  unfolding record_bytes
  length-record_bytes sequence metadata payload s =
      let m = length metadata in
      let n = length payload in
      let raw = make_record_header m n sequence (crc32c metadata) (crc32c payload) in
      let f =
        make_record_header-Fields m n sequence (crc32c metadata) (crc32c payload)
          (omega (arith, s.metadata_fits)) s.payload_fits s.sequence_fits (crc32c_lt metadata)
          (crc32c_lt payload) in
      omega (arith, f.size, length-append raw (metadata ++ payload), length-append metadata payload)

  -- A record that is cut off is not read yet.
  record_at_torn :
      (offset sequence k : ℕ) (metadata payload : List ℕ)
      → Sizes metadata payload sequence
      → k < length (record_bytes sequence metadata payload)
      → record_at accepts offset (take k (record_bytes sequence metadata payload)) true ≡ none_yet
  unfolding record_bytes
  record_at_torn offset sequence k metadata payload s h =
      let m = length metadata in
      let n = length payload in
      let raw = make_record_header m n sequence (crc32c metadata) (crc32c payload) in
      let f =
        make_record_header-Fields m n sequence (crc32c metadata) (crc32c payload)
          (omega (arith, s.metadata_fits)) s.payload_fits s.sequence_fits (crc32c_lt metadata)
          (crc32c_lt payload) in
      let whole = raw ++ (metadata ++ payload) in
      let size = length-record_bytes sequence metadata payload s in
      let cut = length-take k whole in
      elim (Bool-cases (ltb k 48)) [
        | inl few ↦ record_at_short offset (take k whole) (omega (arith, is_shorter k 48 few, cut))
        | inr many ↦
            record_at_cut offset m n sequence (crc32c metadata) (crc32c payload) (take k whole) raw
              (take-take 48 k whole (is_not_shorter k 48 many)
                ∙ take_sum 48 raw (metadata ++ payload) f.size)
              f s.some_metadata s.metadata_fits (omega (arith, cut, h, size))
      ]

-- A buffer to record: its metadata and its payload.
abbrev pub Buffer : Type 0
Buffer = List ℕ × List ℕ

-- The records of a segment, numbered from the first one on, and what the reader should find.
unfoldable pub segment_bytes : ℕ → List Buffer → List ℕ
segment_bytes sequence [] = []
segment_bytes sequence (b ∷ bs) = record_bytes sequence b.0 b.1 ++ segment_bytes (suc sequence) bs

unfoldable pub expected : ℕ → ℕ → List Buffer → List Record
expected offset sequence [] = []
expected offset sequence (b ∷ bs) =
    record {
      offset = offset;
      sequence = sequence;
      metadata_size = length b.0;
      payload_size = length b.1;
      payload_crc32c = crc32c b.1;
    }
    ∷ expected (offset + (48 + length b.0 + length b.1)) (suc sequence) bs

-- The sequence number before this one, if there is one.
abbrev Before : Option ℕ → ℕ → Type 0
Before none sequence = Unit {0}
Before (some p) sequence = sequence ≡ p + 1

in_order :
    (previous : Option ℕ) (sequence : ℕ)
    → Before previous sequence
    → out_of_order previous sequence ≡ false
in_order none sequence h = refl
in_order (some p) sequence h = ground (arith, h)

module _ (accepts : List ℕ → ℕ → Bool) where
  abbrev pub AllFit : ℕ → List Buffer → Type 0
  AllFit sequence [] = Unit {0}
  AllFit sequence (b ∷ bs) =
      (Sizes b.0 b.1 sequence × (accepts b.0 (length b.1) ≡ true)) × AllFit (suc sequence) bs

  -- What is left at the end is not a record yet.
  scan_end :
      (fuel offset : ℕ) (tail : List ℕ) (previous : Option ℕ)
      → length tail < fuel
      → record_at accepts offset tail true ≡ none_yet
      → scan accepts fuel offset tail previous true ≡ record { records = []; failed = false }
  unfolding scan
  scan_end zero offset tail previous h e = absurd (omega (arith, h))
  scan_end (suc fuel) offset [] previous h e = refl
  scan_end (suc fuel) offset (b ∷ tail) previous h e = rw (e, scan) refl

  -- A record that is found, and the rest of the scan behind it.
  scan_found :
      (fuel offset : ℕ) (bytes : List ℕ) (previous : Option ℕ) (live : Bool) (r : Record)
      → 0 < length bytes
      → record_at accepts offset bytes live ≡ found r
      → out_of_order previous r.sequence ≡ false
      → scan accepts (suc fuel) offset bytes previous live ≡ record {
        records =
            r
            ∷ (scan accepts fuel
                (offset + (48 + r.metadata_size + r.payload_size))
                (drop (48 + r.metadata_size + r.payload_size) bytes)
                (some r.sequence)
                live).records;
        failed =
            (scan accepts fuel
              (offset + (48 + r.metadata_size + r.payload_size))
              (drop (48 + r.metadata_size + r.payload_size) bytes)
              (some r.sequence)
              live).failed;
      }
  unfolding scan
  scan_found fuel offset [] previous live r h e o = absurd (omega (arith, h))
  scan_found fuel offset (b ∷ bytes) previous live r h e o = rw (e, scan) (rw o refl)

  scan-segment_bytes :
      (fuel offset sequence : ℕ) (buffers : List Buffer) (tail : List ℕ) (previous : Option ℕ)
      → AllFit sequence buffers
      → Before previous sequence
      → ((at : ℕ) → record_at accepts at tail true ≡ none_yet)
      → length (segment_bytes sequence buffers ++ tail) < fuel
      → scan accepts fuel offset (segment_bytes sequence buffers ++ tail) previous true
        ≡ record { records = expected offset sequence buffers; failed = false }
  unfolding segment_bytes expected
  scan-segment_bytes fuel offset sequence [] tail previous fit before ends enough =
      scan_end fuel offset tail previous enough (ends offset)
  scan-segment_bytes zero offset sequence (b ∷ bs) tail previous fit before ends enough =
      absurd (omega (arith, enough))
  scan-segment_bytes (suc fuel) offset sequence (b ∷ bs) tail previous fit before ends enough =
      let first = record_bytes sequence b.0 b.1 in
      let rest = segment_bytes (suc sequence) bs ++ tail in
      let size = length-record_bytes accepts sequence b.0 b.1 fit.0.0 in
      let split = append_assoc first (segment_bytes (suc sequence) bs) tail in
      let long = length-append first rest in
      let next : Before (some sequence) (suc sequence) = omega arith in
      let here = record_at-record_bytes accepts offset sequence b.0 b.1 rest true fit.0.0 fit.0.1 in
      let r : Record = record {
        offset = offset;
        sequence = sequence;
        metadata_size = length b.0;
        payload_size = length b.1;
        payload_crc32c = crc32c b.1;
      } in
      let after : drop (48 + length b.0 + length b.1) (first ++ rest) ≡ rest =
        ap (λ k. drop k (first ++ rest)) (sym size) ∙ drop-append_length first rest in
      let more =
        scan-segment_bytes fuel (offset + (48 + length b.0 + length b.1)) (suc sequence) bs tail
          (some sequence) fit.1 next ends (omega (arith, enough, ap length split, long, size)) in
      rw split (
        scan_found fuel offset (first ++ rest) previous true r (omega (arith, long, size)) here
          (in_order previous sequence before)
        ∙ rw after (rw more refl))

-- The records of a segment that is being written, read at any moment: the reader of live files finds every record that was
-- appended whole, with its place, number, sizes and checksum, in the order of the appends, and stops without
-- an error at the record that is written in part. The metadata of each buffer is not empty, has at most
-- 1 MiB and passes the reader's check, and the sizes and numbers fit into their fields.
pub scan_torn :
    (accepts : List ℕ → ℕ → Bool) (sequence : ℕ) (buffers : List Buffer) (metadata payload : List ℕ)
    (next k : ℕ)
    → AllFit accepts sequence buffers
    → Sizes metadata payload next
    → k < length (record_bytes next metadata payload)
    → let bytes = segment_bytes sequence buffers ++ take k (record_bytes next metadata payload) in
      scan accepts (suc (length bytes)) 64 bytes none true
      ≡ record { records = expected 64 sequence buffers; failed = false }
scan_torn accepts sequence buffers metadata payload next k fit s h =
    let bytes = segment_bytes sequence buffers ++ take k (record_bytes next metadata payload) in
    scan-segment_bytes accepts (suc (length bytes)) 64 sequence buffers
      (take k (record_bytes next metadata payload)) none fit tt
      (λ at. record_at_torn accepts at next k metadata payload s h) (omega arith)
