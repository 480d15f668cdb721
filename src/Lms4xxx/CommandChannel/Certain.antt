-- ===== src/Lms4xxx/CommandChannel/Certain.antt =====
-- When lms4xxx_driver/src/command_channel.cpp takes the stream to be in step, and that draining ends.
use amiga_drivers.Prelude.{
  ℕ, zero, suc, ◌+◌, ◌≤◌, ◌≡◌, refl, Bool, true, false, not, ◌||◌, Option, Option-cases, none, some,
  inl, inr, List, take, drop, arith,
}
use amiga_drivers.Common.ByteUtil.{load_big_u32}
use amiga_drivers.Lms4xxx.CommandType
use amiga_drivers.Lms4xxx.ErrorCode.{access_denied, sopas_error, command_rejected}
use amiga_drivers.Lms4xxx.ColaB.{ColaBMessage, decode}
use amiga_drivers.Lms4xxx.ColaB.RoundTrip.{decode_error}
use amiga_drivers.Lms4xxx.CommandChannel.{
  Failure, driver_error, TcpClient, CommandChannel, Outcome, max_drain, drain_loop,
  drain_stale_bytes, classify, check_body, receive_body, check_header, receive_header,
  send_and_receive, validate_response, read_variable, call_method, no_message, method_timeout,
}

-- No error, or one that the device itself has answered with a whole frame.
abbrev pub answered : {E : Type 0} → Option (Failure E) → Bool
answered none = true
answered (some (driver_error access_denied)) = true
answered (some (driver_error sopas_error)) = true
answered (some (driver_error command_rejected)) = true
answered _ = false

module _ {E T : Type 0} where
  -- The doubt that a call leaves: the doubt before it, or an error that the device has not answered.
  abbrev pub Doubt : {A : Type 0} → CommandChannel → Outcome E T A → Type 0
  Doubt c r = r.channel.uncertain ≡ (c.uncertain || not (answered r.error))

  module _ (tcp : TcpClient E T) where
    check_body-Doubt :
        (bytes : List ℕ) (n : ℕ) (msg : ColaBMessage) (c : CommandChannel) (t : T)
        → Doubt c (check_body tcp bytes n msg c t)
    unfolding check_body classify
    check_body-Doubt bytes n msg c t = elim (Option-cases (decode (take n bytes) msg).0) [
      | inl fine ↦ ground (arith, fine)
      | inr (e, bad) ↦ ground (arith, bad, decode_error (take n bytes) msg e bad)
    ]

    receive_body-Doubt :
        (n : ℕ) (msg : ColaBMessage) (timeout_ms : ℕ) (c : CommandChannel) (t : T)
        → Doubt c (receive_body tcp n msg timeout_ms c t)
    unfolding receive_body
    receive_body-Doubt n msg timeout_ms c t = ground (
      arith,
      check_body-Doubt (tcp.read t (n + 1) timeout_ms).0.0 n msg c
          (tcp.read t (n + 1) timeout_ms).1,
    )

    check_header-Doubt :
        (header : List ℕ) (msg : ColaBMessage) (timeout_ms : ℕ) (c : CommandChannel) (t : T)
        → Doubt c (check_header tcp header msg timeout_ms c t)
    unfolding check_header
    check_header-Doubt header msg timeout_ms c t =
        ground (arith, receive_body-Doubt (load_big_u32 (drop 4 header)) msg timeout_ms c t)

    receive_header-Doubt :
        (msg : ColaBMessage) (timeout_ms : ℕ) (c : CommandChannel) (t : T)
        → Doubt c (receive_header tcp msg timeout_ms c t)
    unfolding receive_header
    receive_header-Doubt msg timeout_ms c t =
        let r = tcp.read t 8 timeout_ms in
        ground (arith, check_header-Doubt r.0.0 msg timeout_ms c r.1)

    pub send_and_receive-Doubt :
        (frame : List ℕ) (msg : ColaBMessage) (timeout_ms : ℕ) (c : CommandChannel) (t : T)
        → Doubt c (send_and_receive tcp frame msg timeout_ms c t)
    unfolding send_and_receive
    send_and_receive-Doubt frame msg timeout_ms c t =
        ground (arith, receive_header-Doubt msg timeout_ms c (tcp.write t frame).1)

    validate_response-Doubt :
        (msg : ColaBMessage) (kind name : List ℕ) (c : CommandChannel) (t : T)
        → Doubt c (validate_response tcp msg kind name c t)
    unfolding validate_response
    validate_response-Doubt msg kind name c t = ground arith

-- A variable read: after it the stream is in doubt exactly if it was before, or the call failed for
-- another reason than an answer of the device.
pub read_variable-Doubt :
    {E T : Type 0} (tcp : TcpClient E T) (request name payload : List ℕ) (timeout_ms : ℕ)
    (c : CommandChannel) (t : T)
    → Doubt c (read_variable tcp request name payload timeout_ms c t)
unfolding read_variable
read_variable-Doubt tcp request name payload timeout_ms c t =
    let r = send_and_receive tcp request no_message timeout_ms c t in
    ground (
      arith,
      send_and_receive-Doubt tcp request no_message timeout_ms c t,
      validate_response-Doubt tcp r.out CommandType.read_answer name r.channel r.client,
    )

-- A method call: after it the stream is in doubt exactly if it was before, or the call failed for another
-- reason than an answer of the device.
pub call_method-Doubt :
    {E T : Type 0} (tcp : TcpClient E T) (frame name : List ℕ) (ok_byte : Option ℕ)
    (c : CommandChannel) (t : T)
    → Doubt c (call_method tcp frame name ok_byte c t)
unfolding call_method
call_method-Doubt tcp frame name ok_byte c t =
    let r = send_and_receive tcp frame no_message (method_timeout c name) c t in
    ground (
      arith,
      send_and_receive-Doubt tcp frame no_message (method_timeout c name) c t,
      validate_response-Doubt tcp r.out CommandType.method_answer name r.channel r.client,
    )

drain_loop_fuel :
    {E T : Type 0} (tcp : TcpClient E T) (fuel larger dropped : ℕ) (t : T)
    → max_drain ≤ dropped + fuel
    → fuel ≤ larger
    → drain_loop tcp larger dropped t ≡ drain_loop tcp fuel dropped t
unfolding drain_loop
drain_loop_fuel tcp zero zero dropped t h k = refl
drain_loop_fuel tcp zero (suc larger) dropped t h k = ground arith
drain_loop_fuel tcp (suc fuel) zero dropped t h k = absurd (omega arith)
drain_loop_fuel tcp (suc fuel) (suc larger) dropped t h k =
    let r = tcp.read_some t 1024 in
    ground (arith, drain_loop_fuel tcp fuel larger (dropped + r.0.0) r.1)

-- Draining ends by itself, whatever the client returns: fuel for the bytes that may be dropped is enough,
-- and more changes nothing.
pub drain_loop_enough :
    {E T : Type 0} (tcp : TcpClient E T) (fuel : ℕ) (t : T)
    → max_drain ≤ fuel
    → drain_loop tcp fuel 0 t ≡ drain_stale_bytes tcp t
drain_loop_enough tcp fuel t h = drain_loop_fuel tcp max_drain fuel 0 t (omega arith) h
