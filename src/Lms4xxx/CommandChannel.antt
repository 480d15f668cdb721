-- ===== src/Lms4xxx/CommandChannel.antt =====
-- lms4xxx_driver/src/command_channel.cpp: one command and its answer over the TCP connection. The client
-- (`TcpClient`) is a parameter: what a call returns, and the client after it. `uncertain` says that the
-- stream may no longer be in step. Log lines, and the flag that only sets their level, are left out.
pub mod Certain
pub mod Answer
mod Tests
use amiga_drivers.Prelude.{
  ℕ, zero, suc, ◌+◌, ◌*◌, max, Bool, true, false, not, ◌&&◌, ◌||◌, Option, none, some, List, [],
  ◌∷◌, length, get_or, take, drop, bytes_eq, codes, ltb, leb, ◌==◌, if◌then◌else◌,
}
use amiga_drivers.Common.ByteUtil.{load_big_u16, load_big_u32}
use amiga_drivers.Lms4xxx.CommandType
use amiga_drivers.Lms4xxx.ErrorCode.{
  ErrorCode, crc_error, protocol_error, unexpected_response, frame_too_short, frame_too_long,
  access_denied, command_rejected, sopas_error, not_connected,
}
use amiga_drivers.Lms4xxx.ColaB.{ColaBMessage, cola_b_stx, compute_checksum, decode}

-- A `std::error_code`: the driver's own, or the client's.
pub data Failure (E : Type 0) : Type 0 where
  driver_error : ErrorCode → Failure E
  client_error : E → Failure E

-- What the channel calls of a client: `Write`, `Read` of so many bytes within so many ms, `ReadSome`.
pub record TcpClient (E T : Type 0) : Type 0 where
  pub is_connected : T → Bool
  pub write : T → List ℕ → Option E × T
  pub read : T → ℕ → ℕ → (List ℕ × Option E) × T
  pub read_some : T → ℕ → (ℕ × Option E) × T

abbrev pub max_frame_bytes : ℕ
max_frame_bytes = 65536

abbrev pub max_drain : ℕ
max_drain = 65536

abbrev pub method_timeout_ms : ℕ
method_timeout_ms = 5000

abbrev pub start_measurement_timeout_ms : ℕ
start_measurement_timeout_ms = 60000

pub record CommandChannel : Type 0 where
  pub response_timeout_ms : ℕ
  pub uncertain : Bool

unfoldable pub method_timeout : CommandChannel → List ℕ → ℕ
method_timeout c name = max c.response_timeout_ms (
    if bytes_eq name (codes "LMCstartmeas")
    then start_measurement_timeout_ms
    else method_timeout_ms)

abbrev pub reset : CommandChannel → CommandChannel
reset c = record c { uncertain = false }

-- What a call leaves: its error code, the out parameter, the channel and the client.
pub record Outcome (E T A : Type 0) : Type 0 where
  pub error : Option (Failure E)
  pub out : A
  pub channel : CommandChannel
  pub client : T

-- `ColaBMessage r;`
abbrev pub no_message : ColaBMessage
no_message = record { command_type = []; command_name = []; payload = [] }

module _ {E T : Type 0} where
  -- `failed(ec)`
  abbrev pub failed : {A : Type 0} → Failure E → A → CommandChannel → T → Outcome E T A
  failed e out c t = record {
    error = some e;
    out = out;
    channel = record c { uncertain = true };
    client = t;
  }

  -- `return ec`, with no doubt about the stream.
  abbrev pub returned : {A : Type 0} → Option (Failure E) → A → CommandChannel → T → Outcome E T A
  returned e out c t = record { error = e; out = out; channel = c; client = t }

  module _ (tcp : TcpClient E T) where
    -- The loop of `DrainStaleBytes`, on fuel; `dropped` bytes are gone.
    unfoldable pub drain_loop : ℕ → ℕ → T → T
    drain_loop zero dropped t = t
    drain_loop (suc fuel) dropped t =
        let r = tcp.read_some t 1024 in
        let rest = drain_loop fuel (dropped + r.0.0) r.1 in
        if ltb dropped max_drain
        then elim r.0.1 [ some e ↦ r.1 | none ↦ if r.0.0 == 0 then r.1 else rest ]
        else t

    abbrev pub drain_stale_bytes : T → T
    drain_stale_bytes t = drain_loop max_drain 0 t

    -- An sFA answer carries its code; the stream is in step.
    unfoldable pub classify : ColaBMessage → CommandChannel → T → Outcome E T ColaBMessage
    classify response c t =
        let code =
          if leb 2 (length response.payload) then load_big_u16 response.payload else 65535 in
        if bytes_eq response.command_type CommandType.error_answer
        then returned (some (driver_error (if code == 1 then access_denied else sopas_error)))
            response c t
        else returned none response c t

    unfoldable pub check_body :
        List ℕ → ℕ → ColaBMessage → CommandChannel → T → Outcome E T ColaBMessage
    check_body data_and_cs data_len msg c t =
        let decoded = decode (take data_len data_and_cs) msg in
        if not (compute_checksum (take data_len data_and_cs) == get_or data_and_cs data_len 0)
        then failed (driver_error crc_error) msg c t
        else elim decoded.0 [
          | some e ↦ failed (driver_error e) decoded.1 c t
          | none ↦ classify decoded.1 c t
        ]

    unfoldable pub receive_body :
        ℕ → ColaBMessage → ℕ → CommandChannel → T → Outcome E T ColaBMessage
    receive_body data_len msg timeout_ms c t =
        let r = tcp.read t (data_len + 1) timeout_ms in
        let count = length r.0.0 in
        elim r.0.1 [
          | some e ↦
              failed (client_error e) msg c
                (if ltb 0 count && ltb count (data_len + 1) then drain_stale_bytes r.1 else r.1)
          | none ↦
              if ltb count (data_len + 1)
              then failed (driver_error frame_too_short) msg c r.1
              else check_body r.0.0 data_len msg c r.1
        ]

    unfoldable pub check_header :
        List ℕ → ColaBMessage → ℕ → CommandChannel → T → Outcome E T ColaBMessage
    check_header header msg timeout_ms c t =
        let data_len = load_big_u32 (drop 4 header) in
        if not (bytes_eq (take 4 header) cola_b_stx)
        then failed (driver_error protocol_error) msg c (drain_stale_bytes t)
        else if ltb max_frame_bytes data_len
        then failed (driver_error frame_too_long) msg c (drain_stale_bytes t)
        else receive_body data_len msg timeout_ms c t

    unfoldable pub receive_header : ColaBMessage → ℕ → CommandChannel → T → Outcome E T ColaBMessage
    receive_header msg timeout_ms c t =
        let r = tcp.read t 8 timeout_ms in
        elim r.0.1 [
          | some e ↦
              failed (client_error e) msg c
                (if ltb 0 (length r.0.0) then drain_stale_bytes r.1 else r.1)
          | none ↦
              if ltb (length r.0.0) 8
              then failed (driver_error frame_too_short) msg c r.1
              else check_header r.0.0 msg timeout_ms c r.1
        ]

    -- `SendAndReceive(tcp_client, frame, response, timeout_ms, …)` with a client that is not null.
    unfoldable pub send_and_receive :
        List ℕ → ColaBMessage → ℕ → CommandChannel → T → Outcome E T ColaBMessage
    send_and_receive frame msg timeout_ms c t =
        let w = tcp.write t frame in
        if not (tcp.is_connected t) then failed (driver_error not_connected) msg c t else elim w.0 [
          | some e ↦ failed (client_error e) msg c w.1
          | none ↦ receive_header msg timeout_ms c w.1
        ]

    unfoldable pub validate_response :
        ColaBMessage → List ℕ → List ℕ → CommandChannel → T → Outcome E T (Unit {0})
    validate_response msg expected_type expected_name c t =
        if not (bytes_eq msg.command_type expected_type)
        then failed (driver_error unexpected_response) tt c t
        else if not (bytes_eq msg.command_name expected_name)
        then failed (driver_error unexpected_response) tt c t
        else returned none tt c t

    -- `ReadVariable`: `request` is `BuildReadVariable(name)`. The payload changes on success alone.
    unfoldable pub read_variable :
        List ℕ → List ℕ → List ℕ → ℕ → CommandChannel → T → Outcome E T (List ℕ)
    read_variable request name payload timeout_ms c t =
        let r = send_and_receive request no_message timeout_ms c t in
        let v = validate_response r.out CommandType.read_answer name r.channel r.client in
        elim r.error [
          | some e ↦ returned (some e) payload r.channel r.client
          | none ↦ elim v.error [
            | some e ↦ returned (some e) payload v.channel v.client
            | none ↦ returned none r.out.payload v.channel v.client
          ]
        ]

    -- `r.payload.empty() || r.payload[0] != *ok_byte`
    abbrev pub rejected : Option ℕ → List ℕ → Bool
    rejected none payload = false
    rejected (some b) [] = true
    rejected (some b) (x ∷ xs) = not (x == b)

    -- `CallMethod(tcp_client, frame, name, ok_byte)`
    unfoldable pub call_method :
        List ℕ → List ℕ → Option ℕ → CommandChannel → T → Outcome E T (Unit {0})
    call_method frame name ok_byte c t =
        let r = send_and_receive frame no_message (method_timeout c name) c t in
        let v = validate_response r.out CommandType.method_answer name r.channel r.client in
        elim r.error [
          | some e ↦ returned (some e) tt r.channel r.client
          | none ↦ elim v.error [
            | some e ↦ returned (some e) tt v.channel v.client
            | none ↦
                if rejected ok_byte r.out.payload
                then returned (some (driver_error command_rejected)) tt v.channel v.client
                else returned none tt v.channel v.client
          ]
        ]
