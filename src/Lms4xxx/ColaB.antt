-- ===== src/Lms4xxx/ColaB.antt =====
-- lms4xxx_driver/include/cola_b.h and src/cola_b.cpp: the CoLa B codec. A `std::string` and a byte
-- vector are both lists of bytes. Warnings that are only logged are left out.
pub mod RoundTrip
pub mod Checksum
use mathlib.Core.List.{foldl}
use amiga_drivers.Prelude.{
  ℕ, suc, ◌+◌, ◌-◌, ◌/◌, ◌%◌, ◌^◌, Bool, true, false, ◌&&◌, ◌||◌, Option, none, some, List, [], ◌∷◌,
  ◌++◌, length, take, drop, bytes_eq, ltb, leb, ◌==◌, if◌then◌else◌, bit_xor, codes,
}
use amiga_drivers.Common.ByteUtil.{store_big_u16, store_big_u32}
use amiga_drivers.Lms4xxx.CommandType
use amiga_drivers.Lms4xxx.ErrorCode.{ErrorCode, frame_too_short, protocol_error}

abbrev pub cola_b_stx : List ℕ
cola_b_stx = 0x02 ∷ 0x02 ∷ 0x02 ∷ 0x02 ∷ []

abbrev pub cola_b_space : ℕ
cola_b_space = 0x20

pub record ColaBMessage : Type 0 where
  pub command_type : List ℕ
  pub command_name : List ℕ
  pub payload : List ℕ

unfoldable pub is_scan_message : ColaBMessage → Bool
is_scan_message message =
    bytes_eq message.command_name (codes "LMDscandata")
    && (bytes_eq message.command_type CommandType.event_notify
        || bytes_eq message.command_type CommandType.read_answer)

-- XOR of all bytes.
unfoldable pub compute_checksum : List ℕ → ℕ
compute_checksum data_bytes = foldl bit_xor 0 data_bytes

abbrev pub encode_uint32 : ℕ → List ℕ
encode_uint32 = store_big_u32

abbrev pub encode_uint16 : ℕ → List ℕ
encode_uint16 = store_big_u16

-- The data part: CommandType 0x20 CommandName [0x20 Params].
abbrev pub encode_data : List ℕ → List ℕ → List ℕ → List ℕ
encode_data command_type command_name [] = command_type ++ (cola_b_space ∷ command_name)
encode_data command_type command_name (p ∷ params) =
    command_type ++ (cola_b_space ∷ (command_name ++ (cola_b_space ∷ p ∷ params)))

-- The frame round a data part: STX(4) Length(4) Data Checksum(1).
abbrev pub frame_of : List ℕ → List ℕ
frame_of bytes =
    cola_b_stx
    ++ (encode_uint32 (length bytes % 2 ^ 32) ++ (bytes ++ (compute_checksum bytes ∷ [])))

unfoldable pub encode : List ℕ → List ℕ → List ℕ → List ℕ
encode command_type command_name params = frame_of (encode_data command_type command_name params)

-- The loop to the next space or the end: the bytes passed, and what is left.
unfoldable pub split_name : List ℕ → List ℕ × List ℕ
split_name [] = ([], [])
split_name (b ∷ bs) =
    if b == cola_b_space then ([], b ∷ bs) else (b ∷ (split_name bs).0, (split_name bs).1)

-- "minus the separating space"
abbrev skip_space : List ℕ → List ℕ
skip_space [] = []
skip_space (b ∷ bs) = if b == cola_b_space then bs else b ∷ bs

-- `msg` is an out parameter: an early return leaves in it what had been assigned by then.
abbrev Decoded : Type 0
Decoded = Option ErrorCode × ColaBMessage

-- After the error answer's test: an empty name is an error, and what follows the name is the payload.
decode_named : List ℕ → List ℕ → ColaBMessage → Decoded
decode_named [] tail msg = (some protocol_error, msg)
decode_named (c ∷ cs) tail msg =
    (none, record msg { command_name = c ∷ cs; payload = skip_space tail })

-- After the command type and its space.
decode_rest : List ℕ → ColaBMessage → Decoded
decode_rest rest msg =
    if bytes_eq msg.command_type CommandType.error_answer
    then (none, record msg { command_name = []; payload = rest })
    else decode_named (split_name rest).0 (split_name rest).1 msg

-- The first four bytes by clauses: `len < 4` is the catch-all.
unfoldable pub decode : List ℕ → ColaBMessage → Decoded
unfolding decode_rest decode_named
decode (a ∷ b ∷ c ∷ d ∷ rest) msg =
    let typed = record msg { command_type = a ∷ b ∷ c ∷ [] } in
    if d == cola_b_space then decode_rest rest typed else (some protocol_error, typed)
decode _ msg = (some frame_too_short, msg)

-- `start` is header + type + SP + name + SP.
unfoldable pub params_of : List ℕ → ℕ → List ℕ
params_of frame name_len =
    let start = 8 + 3 + 1 + name_len + 1 in
    if ltb (length frame) 2 || leb (length frame - 1) start
    then []
    else take (length frame - 1 - start) (drop start frame)
