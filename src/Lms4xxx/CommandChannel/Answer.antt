-- ===== src/Lms4xxx/CommandChannel/Answer.antt =====
-- What lms4xxx_driver/src/command_channel.cpp returns when a whole answer arrives.
use amiga_drivers.Prelude.{
  ℕ, ◌+◌, ◌%◌, ◌^◌, ◌≤◌, ◌≡◌, refl, ap, ◌∙◌, true, false, none, some, List, [], ◌∷◌, ◌++◌, length,
  length-append, get_or, take, drop, take-append_length, bytes_eq, bytes_eq_refl, arith,
}
use amiga_drivers.Common.ByteUtil.{load_big_u32}
use amiga_drivers.Common.ByteUtil.RoundTrip.{load_big_u32-store_big_u32}
use amiga_drivers.Lms4xxx.CommandType
use amiga_drivers.Lms4xxx.ColaB.{
  ColaBMessage, compute_checksum, encode_data, frame_of, decode, cola_b_stx, encode_uint32,
}
use amiga_drivers.Lms4xxx.ColaB.RoundTrip.{decode-encode_data, IsName}
use amiga_drivers.Lms4xxx.CommandChannel.{
  TcpClient, CommandChannel, max_frame_bytes, classify, check_body, receive_body, check_header,
  receive_header, send_and_receive, validate_response, call_method, returned, no_message,
  method_timeout,
}

get_or_last : (xs : List ℕ) (b d : ℕ) → get_or (xs ++ (b ∷ [])) (length xs) d ≡ b
get_or_last [] b d = refl
get_or_last (x ∷ xs) b d = get_or_last xs b d

module _ {E T : Type 0} (tcp : TcpClient E T) where
  -- The client is connected and takes the request, and then hands over a frame with the data part `d`:
  -- its header of 8 bytes, and the rest.
  pub record Delivers (request d : List ℕ) (timeout_ms : ℕ) (t : T) (t' : T) : Type 0 where
    pub connected : tcp.is_connected t ≡ true
    pub sent : (tcp.write t request).0 ≡ none
    pub between : T
    pub header :
        tcp.read (tcp.write t request).1 8 timeout_ms ≡ ((take 8 (frame_of d), none), between)
    pub body : tcp.read between (length d + 1) timeout_ms ≡ ((drop 8 (frame_of d), none), t')

  check_body_whole :
      (d : List ℕ) (msg : ColaBMessage) (c : CommandChannel) (t : T)
      → (decode d msg).0 ≡ none
      → check_body tcp (d ++ (compute_checksum d ∷ [])) (length d) msg c t
        ≡ classify tcp (decode d msg).1 c t
  unfolding check_body
  check_body_whole d msg c t h = ground (
    arith,
    h,
    take-append_length d (compute_checksum d ∷ []),
    get_or_last d (compute_checksum d) 0,
  )

  receive_body_whole :
      (d : List ℕ) (msg : ColaBMessage) (timeout_ms : ℕ) (c : CommandChannel) (t t' : T)
      → tcp.read t (length d + 1) timeout_ms ≡ ((d ++ (compute_checksum d ∷ []), none), t')
      → (decode d msg).0 ≡ none
      → receive_body tcp (length d) msg timeout_ms c t ≡ classify tcp (decode d msg).1 c t'
  unfolding receive_body
  receive_body_whole d msg timeout_ms c t t' r h =
      ground (arith, r, length-append d (compute_checksum d ∷ []), check_body_whole d msg c t' h)

  length_field :
      (d : List ℕ)
      → length d ≤ max_frame_bytes
      → load_big_u32 (encode_uint32 (length d % 2 ^ 32)) ≡ length d
  length_field d h =
      let small : length d % 2 ^ 32 ≡ length d = omega arith in
      load_big_u32-store_big_u32 (length d % 2 ^ 32) [] (omega arith) ∙ small

  check_header_whole :
      (d : List ℕ) (msg : ColaBMessage) (timeout_ms : ℕ) (c : CommandChannel) (t t' : T)
      → length d ≤ max_frame_bytes
      → tcp.read t (length d + 1) timeout_ms ≡ ((d ++ (compute_checksum d ∷ []), none), t')
      → (decode d msg).0 ≡ none
      → check_header tcp (cola_b_stx ++ encode_uint32 (length d % 2 ^ 32)) msg timeout_ms c t
        ≡ classify tcp (decode d msg).1 c t'
  unfolding check_header
  check_header_whole d msg timeout_ms c t t' l r h =
      ground (arith, length_field d l, receive_body_whole d msg timeout_ms c t t' r h)

  -- The answer is taken as `Decode` reads its data part.
  delivered :
      (request d : List ℕ) (msg : ColaBMessage) (timeout_ms : ℕ) (c : CommandChannel) (t t' : T)
      → length d ≤ max_frame_bytes
      → Delivers request d timeout_ms t t'
      → (decode d msg).0 ≡ none
      → send_and_receive tcp request msg timeout_ms c t ≡ classify tcp (decode d msg).1 c t'
  unfolding send_and_receive receive_header
  delivered request d msg timeout_ms c t t' l v h =
      ground (arith, v, check_header_whole d msg timeout_ms c v.between t' l v.body h)

  -- A message that is not an error answer is handed out as it is.
  classify_plain :
      (m : ColaBMessage) (c : CommandChannel) (t : T)
      → bytes_eq m.command_type CommandType.error_answer ≡ false
      → classify tcp m c t ≡ returned none m c t
  unfolding classify
  classify_plain m c t h = ground (arith, h)

  -- A method call whose answer is right.
  call_method_answered :
      (frame name : List ℕ) (ok : ℕ) (rest : List ℕ) (c : CommandChannel) (t t' : T)
      → send_and_receive tcp frame no_message (method_timeout c name) c t
        ≡ returned none
            (record {
              command_type = CommandType.method_answer;
              command_name = name;
              payload = ok ∷ rest;
            })
            c
            t'
      → call_method tcp frame name (some ok) c t ≡ returned none tt c t'
  unfolding call_method validate_response
  call_method_answered frame name ok rest c t t' s = ground (arith, s, bytes_eq_refl name)

-- A method is called, the client delivers a whole answer to it, as `Encode` would build it, of at most
-- 64 KiB, and its first byte is the one expected: the call succeeds, the stream is in doubt only if it
-- was before, and the client has been read up to the end of the answer.
pub call_method_delivered :
    {E T : Type 0} (tcp : TcpClient E T) (frame : List ℕ) (x : ℕ) (name : List ℕ) (ok : ℕ)
    (rest : List ℕ) (c : CommandChannel) (t t' : T)
    → IsName (x ∷ name)
    → length (encode_data CommandType.method_answer (x ∷ name) (ok ∷ rest)) ≤ max_frame_bytes
    → Delivers tcp frame
        (encode_data CommandType.method_answer (x ∷ name) (ok ∷ rest))
        (method_timeout c (x ∷ name))
        t
        t'
    → call_method tcp frame (x ∷ name) (some ok) c t ≡ returned none tt c t'
call_method_delivered tcp frame x name ok rest c t t' n l v =
    let bytes = encode_data CommandType.method_answer (x ∷ name) (ok ∷ rest) in
    let d = decode-encode_data 115 65 78 x name (ok ∷ rest) no_message refl n in
    let s =
      delivered tcp frame bytes no_message (method_timeout c (x ∷ name)) c t t' l v
        (ap (λ r. r.0) d) in
    call_method_answered tcp frame (x ∷ name) ok rest c t t'
      (s ∙ ap (λ r. classify tcp r.1 c t') d ∙ classify_plain tcp _ c t' refl)
