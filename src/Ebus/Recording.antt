-- ===== src/Ebus/Recording.antt =====
-- app/decoder/ebus/recording.py: the reader of the cameras' raw files. `accepts` stands for the JSON of the
-- metadata and what is asked of it; a record keeps no document. A ValueError is `invalid`.
pub mod ReadBack
pub mod Torn
use amiga_drivers.Prelude.{
  ℕ, zero, suc, ◌+◌, ◌-◌, ◌*◌, ◌/◌, ◌%◌, ◌^◌, bit_xor, Bool, true, false, not, ◌&&◌, ◌||◌, Option,
  none, some, List, [], ◌∷◌, length, take, drop, bytes_eq, ltb, leb, ◌==◌, if◌then◌else◌, replicate,
}

-- The rounds of an entry of `_crc_table()`.
unfoldable pub table_value : ℕ → ℕ → ℕ
table_value zero value = value
table_value (suc rounds) value =
    table_value rounds (bit_xor (value / 2) (if value % 2 == 1 then 2197175160 else 0))

-- The loop of `crc32c(data, seed)` over the bytes.
unfoldable pub checksum_loop : List ℕ → ℕ → ℕ
checksum_loop [] value = value
checksum_loop (byte ∷ data_) value =
    checksum_loop data_ (bit_xor (table_value 8 (bit_xor value byte % 256)) (value / 2 ^ 8))

-- `crc32c(data, seed)` of the reader; the complement of 32 bits is a difference.
unfoldable pub checksum : List ℕ → ℕ → ℕ
checksum data_ seed = 2 ^ 32 - 1 - checksum_loop data_ (2 ^ 32 - 1 - seed)

-- A little-endian field of so many bytes, as `struct.unpack` reads it.
unfoldable pub unpack : ℕ → List ℕ → ℕ
unpack zero bytes = 0
unpack (suc n) [] = 0
unpack (suc n) (b ∷ bytes) = b + 256 * unpack n bytes

pub record Record : Type 0 where
  pub offset : ℕ
  pub sequence : ℕ
  pub metadata_size : ℕ
  pub payload_size : ℕ
  pub payload_crc32c : ℕ

abbrev pub payload_offset : Record → ℕ
payload_offset r = r.offset + 48 + r.metadata_size

abbrev pub end_of : Record → ℕ
end_of r = payload_offset r + r.payload_size

-- A record, nothing more yet, or an error.
pub data Found : Type 0 where
  found : Record → Found
  none_yet : Found
  invalid : Found

-- Where something is missing: a live reader waits.
abbrev pub missing : Bool → Found
missing live = if live then none_yet else invalid

-- The records that are yielded, and whether the end is an error.
pub record Scan : Type 0 where
  pub records : List Record
  pub failed : Bool

-- `previous is not None and record.sequence != previous + 1`
abbrev pub out_of_order : Option ℕ → ℕ → Bool
out_of_order none seq = false
out_of_order (some p) seq = not (seq == p + 1)

module _ (accepts : List ℕ → ℕ → Bool) where
  -- `_record_at`, from the bytes at the offset on.
  unfoldable pub record_at : ℕ → List ℕ → Bool → Found
  record_at offset bytes live =
      let raw = take 48 bytes in
      let metadata_size = unpack 4 (drop 8 raw) in
      let payload_size = unpack 8 (drop 16 raw) in
      let metadata = take metadata_size (drop 48 bytes) in
      if not (length raw == 48)
      then missing live
      else if not (bytes_eq (take 4 raw) (69 ∷ 66 ∷ 70 ∷ 82 ∷ []))
          || (not (unpack 4 (drop 4 raw) == 48)
              || (not (unpack 4 (drop 12 raw) == 0)
                  || (not (unpack 4 (drop 44 raw) == 0)
                      || not (ltb 0 metadata_size && leb metadata_size (1024 * 1024)))))
      then invalid
      else if not (checksum (take 40 raw) 0 == unpack 4 (drop 40 raw))
      then invalid
      else if ltb (length bytes) (48 + metadata_size + payload_size)
      then missing live
      else if not (checksum metadata 0 == unpack 4 (drop 32 raw))
      then invalid
      else if not (accepts metadata payload_size)
      then invalid
      else found (record {
        offset = offset;
        sequence = unpack 8 (drop 24 raw);
        metadata_size = metadata_size;
        payload_size = payload_size;
        payload_crc32c = unpack 4 (drop 36 raw);
      })

  -- The loop of `iter_records`, on fuel: each pass that goes on moves on by a prefix at least.
  unfoldable pub scan : ℕ → ℕ → List ℕ → Option ℕ → Bool → Scan
  scan zero offset bytes previous live = record { records = []; failed = true }
  scan (suc fuel) offset [] previous live = record { records = []; failed = false }
  scan (suc fuel) offset (b ∷ bytes) previous live = elim (record_at offset (b ∷ bytes) live) [
    | none_yet ↦ record { records = []; failed = false }
    | invalid ↦ record { records = []; failed = true }
    | found r ↦
        let size = 48 + r.metadata_size + r.payload_size in
        let rest = scan fuel (offset + size) (drop size (b ∷ bytes)) (some r.sequence) live in
        if out_of_order previous r.sequence
        then record { records = []; failed = true }
        else record { records = r ∷ rest.records; failed = rest.failed }
  ]
