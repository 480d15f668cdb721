-- ===== src/Ebus/Tests.antt =====
-- The theorems on ebus_driver, and on the reader of its files, at concrete inputs.
use amiga_drivers.Prelude.{
  List, [], arith, false, length, map, none, refl, suc, take, true, ℕ, ◌++◌, ◌<◌, ◌∷◌, ◌≡◌,
}
use amiga_drivers.Ebus.RawFormat.{
  put, crc_bits, table_entry, crc_loop, crc32c, record_prefix, make_record_header, record_bytes,
}
use amiga_drivers.Ebus.Recording.{scan}
use amiga_drivers.Ebus.Recording.ReadBack.{Sizes}
use amiga_drivers.Ebus.Recording.Torn.{AllFit, Buffer, segment_bytes, expected, scan_torn}
use amiga_drivers.Ebus.BlockIds.{new_block_ids, lost, observe_all}
use amiga_drivers.Ebus.BlockIds.Gaps.{Arrival, wire, arriving, due, observe_all-arriving}

-- The frames 65533, 65534 (the last of the cycle), 65537 (two are lost), 65536 (late) and 65538.
abbrev arrivals : List Arrival
arrivals = Arrival.ahead 0 ∷ Arrival.ahead 2 ∷ Arrival.behind 1 ∷ Arrival.ahead 0 ∷ []

observe_all-arriving_example :
    observe_all (wire false 65533 ∷ arriving false 65533 arrivals) (new_block_ids false)
    ≡ lost 0 ∷ map due arrivals
observe_all-arriving_example = observe_all-arriving false 65533 arrivals (ground arith)

-- The check value of CRC-32C: the digits 1 to 9.
crc_check : crc32c (49 ∷ 50 ∷ 51 ∷ 52 ∷ 53 ∷ 54 ∷ 55 ∷ 56 ∷ 57 ∷ []) ≡ 3808858755
unfolding crc32c crc_loop table_entry crc_bits
crc_check = refl

abbrev buffers : List Buffer
buffers = (123 ∷ 125 ∷ [], 1 ∷ 2 ∷ 3 ∷ []) ∷ (123 ∷ 125 ∷ [], []) ∷ []

-- The third record ends within its header.
abbrev torn_file : List ℕ
torn_file = segment_bytes 0 buffers ++ take 20 (record_bytes 2 (123 ∷ 125 ∷ []) (9 ∷ []))

torn_short : 20 < length (record_bytes 2 (123 ∷ 125 ∷ []) (9 ∷ []))
unfolding record_bytes make_record_header record_prefix put
torn_short = omega arith

buffers_fit : AllFit (λ m n. true) 0 buffers
buffers_fit = ground arith

last_fits : Sizes (123 ∷ 125 ∷ []) (9 ∷ []) 2
last_fits = ground arith

scan_torn_example :
    scan (λ m n. true) (suc (length torn_file)) 64 torn_file none true
    ≡ record { records = expected 64 0 buffers; failed = false }
scan_torn_example =
    scan_torn (λ m n. true) 0 buffers (123 ∷ 125 ∷ []) (9 ∷ []) 2 20 buffers_fit last_fits
      torn_short
