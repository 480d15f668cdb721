-- ===== src/Ebus/RawFormat.antt =====
-- ebus_driver/src/raw_format.cpp: the headers of the cameras' raw files, and the CRC-32C over a table.
use amiga_drivers.Prelude.{
  ℕ, zero, suc, ◌-◌, ◌*◌, ◌/◌, ◌%◌, ◌^◌, bit_xor, List, [], ◌∷◌, ◌++◌, length, replicate, ◌==◌,
  if◌then◌else◌,
}

abbrev pub file_header_size : ℕ
file_header_size = 64

abbrev pub record_header_size : ℕ
record_header_size = 48

abbrev pub max_metadata_size : ℕ
max_metadata_size = 1024 * 1024

abbrev pub version : ℕ
version = 1

-- `Put(out, value)` for a value of so many bytes.
unfoldable pub put : ℕ → ℕ → List ℕ
put zero value = []
put (suc n) value = (value % 256) ∷ put n (value / 256)

-- The rounds of an entry of the table.
unfoldable pub crc_bits : ℕ → ℕ → ℕ
crc_bits zero crc = crc
crc_bits (suc n) crc = crc_bits n (bit_xor (crc / 2) (if crc % 2 == 1 then 2197175160 else 0))

-- `table[i]`
unfoldable pub table_entry : ℕ → ℕ
table_entry i = crc_bits 8 i

unfoldable pub crc_loop : List ℕ → ℕ → ℕ
crc_loop [] crc = crc
crc_loop (b ∷ bytes) crc =
    crc_loop bytes (bit_xor (table_entry (bit_xor crc b % 256)) (crc / 2 ^ 8))

-- `Software(p, size)`; the complement of 32 bits is a difference.
unfoldable pub crc32c : List ℕ → ℕ
crc32c bytes = 2 ^ 32 - 1 - crc_loop bytes (2 ^ 32 - 1)

-- The first 60 bytes: the magic number "EBUSRAW", the version, the size, and the two numbers.
unfoldable pub file_prefix : ℕ → ℕ → List ℕ
file_prefix created segment =
    (69 ∷ 66 ∷ 85 ∷ 83 ∷ 82 ∷ 65 ∷ 87 ∷ 0 ∷ [])
    ++ (put 2 version
        ++ (put 2 file_header_size
            ++ (replicate 4 0 ++ (put 8 created ++ (put 8 segment ++ replicate 28 0)))))

unfoldable pub make_file_header : ℕ → ℕ → List ℕ
make_file_header created segment =
    file_prefix created segment ++ put 4 (crc32c (file_prefix created segment))

-- The first 40 bytes: the magic number "EBFR" and the fields; four bytes after the metadata's size stay zero.
unfoldable pub record_prefix : ℕ → ℕ → ℕ → ℕ → ℕ → List ℕ
record_prefix metadata_size payload_size sequence metadata_crc payload_crc =
    (69 ∷ 66 ∷ 70 ∷ 82 ∷ [])
    ++ (put 4 record_header_size
        ++ (put 4 metadata_size
            ++ (replicate 4 0
                ++ (put 8 payload_size
                    ++ (put 8 sequence ++ (put 4 metadata_crc ++ put 4 payload_crc))))))

unfoldable pub make_record_header : ℕ → ℕ → ℕ → ℕ → ℕ → List ℕ
make_record_header metadata_size payload_size sequence metadata_crc payload_crc =
    let prefix = record_prefix metadata_size payload_size sequence metadata_crc payload_crc in
    prefix ++ (put 4 (crc32c prefix) ++ replicate 4 0)

-- What `RawRecorder::Append` of ebus_driver/src/raw_recorder.cpp writes for a buffer.
unfoldable pub record_bytes : ℕ → List ℕ → List ℕ → List ℕ
record_bytes sequence metadata payload =
    make_record_header (length metadata) (length payload) sequence (crc32c metadata)
      (crc32c payload)
    ++ (metadata ++ payload)
