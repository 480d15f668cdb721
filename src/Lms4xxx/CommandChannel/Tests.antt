-- ===== src/Lms4xxx/CommandChannel/Tests.antt =====
-- The theorems on lms4xxx_driver/src/command_channel.cpp at concrete inputs.
use amiga_drivers.Prelude.{
  ℕ, ◌≡◌, refl, true, false, none, some, Option, List, [], ◌∷◌, take, drop, arith,
}
use amiga_drivers.Lms4xxx.CommandType
use amiga_drivers.Lms4xxx.ColaB.{encode_data, frame_of}
use amiga_drivers.Lms4xxx.CommandChannel.{
  TcpClient, CommandChannel, read_variable, call_method, drain_loop, drain_stale_bytes,
  method_timeout, returned,
}
use amiga_drivers.Lms4xxx.CommandChannel.Certain.{
  Doubt, read_variable-Doubt, call_method-Doubt, drain_loop_enough,
}
use amiga_drivers.Lms4xxx.CommandChannel.Answer.{Delivers, call_method_delivered}

-- A client with the answers that it will give, each to one read; without one, a read has the error 1.
abbrev next_answer : List (List ℕ) → (List ℕ × Option ℕ) × List (List ℕ)
next_answer [] = (([], some 1), [])
next_answer (bytes ∷ rest) = ((bytes, none), rest)

abbrev scripted : TcpClient ℕ (List (List ℕ))
scripted = record {
  is_connected = λ t. true;
  write = λ t bytes. (none, t);
  read = λ t n timeout_ms. next_answer t;
  read_some = λ t n. ((700, none), t);
}

abbrev channel : CommandChannel
channel = record { response_timeout_ms = 1000; uncertain = false }

-- The header is cut off.
read_variable-Doubt_example :
    Doubt channel (read_variable scripted (1 ∷ []) (88 ∷ []) [] 1000 channel ((2 ∷ 2 ∷ []) ∷ []))
read_variable-Doubt_example =
    read_variable-Doubt scripted (1 ∷ []) (88 ∷ []) [] 1000 channel ((2 ∷ 2 ∷ []) ∷ [])

call_method-Doubt_example :
    Doubt channel (call_method scripted (1 ∷ []) (88 ∷ []) (some 1) channel [])
call_method-Doubt_example = call_method-Doubt scripted (1 ∷ []) (88 ∷ []) (some 1) channel []

drain_loop_enough_example : drain_loop scripted 70000 0 [] ≡ drain_stale_bytes scripted []
drain_loop_enough_example = drain_loop_enough scripted 70000 [] (omega arith)

abbrev answer : List ℕ
answer = encode_data CommandType.method_answer (88 ∷ []) (1 ∷ [])

abbrev answers : List (List ℕ)
answers = take 8 (frame_of answer) ∷ drop 8 (frame_of answer) ∷ []

answers_delivered : Delivers scripted (1 ∷ []) answer (method_timeout channel (88 ∷ [])) answers []
answers_delivered = record {
  connected = refl;
  sent = refl;
  between = drop 8 (frame_of answer) ∷ [];
  header = refl;
  body = refl;
}

call_method_delivered_example :
    call_method scripted (1 ∷ []) (88 ∷ []) (some 1) channel answers ≡ returned none tt channel []
call_method_delivered_example =
    call_method_delivered scripted (1 ∷ []) 88 [] 1 [] channel answers [] (ground arith)
      (ground arith) answers_delivered
