-- ===== src/Lms4xxx/ColaB/RoundTrip.antt =====
-- Encoding and decoding (lms4xxx_driver/src/cola_b.cpp) are inverse.
use amiga_drivers.Prelude.{
  ℕ, ◌+◌, ◌≡◌, refl, ◌≢◌, ◌⊎◌, inl, inr, false, Bool-cases, none, some, List, [], ◌∷◌, ◌++◌, length,
  length-append, drop, take-append_length, drop-append_length, All, append-nil, append_assoc,
  bytes_eq, ◌==◌, ◌%◌, ◌^◌, arith,
}
use amiga_drivers.Lms4xxx.CommandType
use amiga_drivers.Lms4xxx.ErrorCode.{ErrorCode, frame_too_short, protocol_error}
use amiga_drivers.Lms4xxx.ColaB.{
  ColaBMessage, cola_b_space, encode_data, encode, frame_of, split_name, decode, decode_rest,
  decode_named, params_of, compute_checksum, encode_uint32, cola_b_stx,
}

-- No byte is the separator.
abbrev pub IsName : List ℕ → Type 0
IsName = All (λ b. b ≢ cola_b_space)

split_name_end : (n : List ℕ) → IsName n → split_name n ≡ (n, [])
unfolding split_name
split_name_end [] h = refl
split_name_end (b ∷ n) h = ground (arith, split_name_end n h.1)

split_name_space :
    (n r : List ℕ) → IsName n → split_name (n ++ (cola_b_space ∷ r)) ≡ (n, cola_b_space ∷ r)
unfolding split_name
split_name_space [] r h = refl
split_name_space (b ∷ n) r h = ground (arith, split_name_space n r h.1)

-- Decoding the data part that `Encode` builds gives back its three parts, whatever the message held
-- before: for a command type of three bytes that is not the error answer, and a name that is not
-- empty and has no space in it.
pub decode-encode_data :
    (a b c x : ℕ) (name params : List ℕ) (msg : ColaBMessage)
    → bytes_eq (a ∷ b ∷ c ∷ []) CommandType.error_answer ≡ false
    → IsName (x ∷ name)
    → decode (encode_data (a ∷ b ∷ c ∷ []) (x ∷ name) params) msg
      ≡ (none, record { command_type = a ∷ b ∷ c ∷ []; command_name = x ∷ name; payload = params })
unfolding decode
decode-encode_data a b c x name [] msg t n = simp (split_name_end (x ∷ name) n, t)
decode-encode_data a b c x name (p ∷ params) msg t n =
    simp (split_name_space (x ∷ name) (p ∷ params) n, t)

-- The name and what follows it make up the bytes that were split.
split_name-append : (bs : List ℕ) → (split_name bs).0 ++ (split_name bs).1 ≡ bs
unfolding split_name
split_name-append [] = refl
split_name-append (b ∷ bs) = ground (arith, split_name-append bs)

params_of_cut :
    (head params : List ℕ) (name_len cs : ℕ)
    → length head ≡ 13 + name_len
    → params ≢ []
    → params_of (head ++ (params ++ (cs ∷ []))) name_len ≡ params
unfolding params_of
params_of_cut head [] name_len cs e ne = absurd (ne refl)
params_of_cut head (p ∷ params) name_len cs e ne = ground (
  arith,
  length-append head (p ∷ params ++ (cs ∷ [])),
  length-append (p ∷ params) (cs ∷ []),
  drop_start,
  take-append_length (p ∷ params) (cs ∷ []),
)
  where
    drop_start :
        drop (12 + name_len + 1) (head ++ (p ∷ params ++ (cs ∷ []))) ≡ p ∷ params ++ (cs ∷ [])
    drop_start =
        let s : 12 + name_len + 1 ≡ length head = omega arith in
        rw s (drop-append_length head (p ∷ params ++ (cs ∷ [])))

regroup : (name ps t : List ℕ) (s : ℕ) → (name ++ (s ∷ ps)) ++ t ≡ (name ++ (s ∷ [])) ++ (ps ++ t)
regroup name ps t s = simp append_assoc

-- The parameters of an encoded frame are found by the length of its command name, for a command
-- type of three bytes.
pub params_of-encode :
    (a b c : ℕ) (name params : List ℕ)
    → params_of (encode (a ∷ b ∷ c ∷ []) name params) (length name) ≡ params
unfolding encode
params_of-encode a b c name [] = empty_params
  where
    frame : List ℕ
    frame = frame_of (encode_data (a ∷ b ∷ c ∷ []) name [])

    empty_params : params_of frame (length name) ≡ []
    empty_params =
        unfold params_of in
        ground (arith, length-append name (compute_checksum (a ∷ b ∷ c ∷ cola_b_space ∷ name) ∷ []))
params_of-encode a b c name (p ∷ params) =
    let bytes = encode_data (a ∷ b ∷ c ∷ []) name (p ∷ params) in
    let header = cola_b_stx ++ encode_uint32 (length bytes % 2 ^ 32) in
    rw (regroup name (p ∷ params) (compute_checksum bytes ∷ []) cola_b_space) (
      params_of_cut (header ++ (a ∷ b ∷ c ∷ cola_b_space ∷ (name ++ (cola_b_space ∷ []))))
        (p ∷ params) (length name) (compute_checksum bytes)
        (omega (arith, length-append name (cola_b_space ∷ []))) (λ q. cc q))

split_name_tail :
    (bs : List ℕ)
    → ((split_name bs).1 ≡ []) ⊎ ((r : List ℕ) × ((split_name bs).1 ≡ cola_b_space ∷ r))
unfolding split_name
split_name_tail [] = inl refl
split_name_tail (b ∷ bs) = elim (Bool-cases (b == cola_b_space)) [
  | inl e ↦ rw e (inr (bs, ground arith))
  | inr e ↦ rw e (split_name_tail bs)
]

-- The bytes of a data part are those of its three parts, but for one separator at the end.
abbrev pub Encodes : List ℕ → ColaBMessage → Type 0
Encodes bytes m =
    (bytes ≡ encode_data m.command_type m.command_name m.payload)
    ⊎ ((m.payload ≡ [])
        × (bytes ≡ encode_data m.command_type m.command_name [] ++ (cola_b_space ∷ [])))

-- A message that was decoded from a name and a tail which begins with the separator, if at all.
decode_named-Encodes :
    (name tail : List ℕ) (msg m : ColaBMessage)
    → (tail ≡ []) ⊎ ((r : List ℕ) × (tail ≡ cola_b_space ∷ r))
    → decode_named name tail msg ≡ (none, m)
    → Encodes (msg.command_type ++ (cola_b_space ∷ (name ++ tail))) m
unfolding decode_named
decode_named-Encodes [] tail msg m h e = absurd (cc)
decode_named-Encodes (c ∷ cs) tail msg m (inl h) e = inl (ground (arith, append-nil (c ∷ cs)))
decode_named-Encodes (c ∷ cs) tail msg m (inr ([], h)) e = inr (
  ground arith,
  ground (arith, append_assoc msg.command_type (cola_b_space ∷ c ∷ cs) (cola_b_space ∷ [])),
)
decode_named-Encodes (c ∷ cs) tail msg m (inr (p ∷ ps, h)) e = inl (ground arith)

-- Whatever message `Decode` accepts and is not an error answer, its three parts encode to the bytes
-- that were decoded, but for one separator that may stand at their end where there is no payload.
pub decode-Encodes :
    (bytes : List ℕ) (msg m : ColaBMessage)
    → decode bytes msg ≡ (none, m)
    → bytes_eq m.command_type CommandType.error_answer ≡ false
    → Encodes bytes m
unfolding decode decode_rest
decode-Encodes (a ∷ b ∷ c ∷ d ∷ rest) msg m e h = ground (
  arith,
  decode_named-Encodes (split_name rest).0 (split_name rest).1
      (record msg { command_type = a ∷ b ∷ c ∷ [] }) m (split_name_tail rest),
  split_name-append rest,
)
decode-Encodes [] msg m e h = absurd (cc)
decode-Encodes (a ∷ []) msg m e h = absurd (cc)
decode-Encodes (a ∷ b ∷ []) msg m e h = absurd (cc)
decode-Encodes (a ∷ b ∷ c ∷ []) msg m e h = absurd (cc)

-- `Decode` fails for a part that is too short or breaks the protocol, and for nothing else.
pub decode_error :
    (bytes : List ℕ) (msg : ColaBMessage) (e : ErrorCode)
    → (decode bytes msg).0 ≡ some e
    → (e ≡ frame_too_short) ⊎ (e ≡ protocol_error)
unfolding decode decode_rest decode_named
decode_error [] msg e h = inl (ground arith)
decode_error (a ∷ []) msg e h = inl (ground arith)
decode_error (a ∷ b ∷ []) msg e h = inl (ground arith)
decode_error (a ∷ b ∷ c ∷ []) msg e h = inl (ground arith)
decode_error (a ∷ b ∷ c ∷ d ∷ rest) msg e h = inr (ground arith)
