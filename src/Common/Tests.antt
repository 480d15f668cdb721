-- ===== src/Common/Tests.antt =====
-- The theorems on the shared code at concrete inputs.
use amiga_drivers.Prelude.{
  ℕ, ◌+◌, ◌-◌, ◌^◌, ◌≡◌, refl, true, false, none, some, List, [], ◌∷◌, codes, pow2, leb, ◌==◌,
  arith,
}
use amiga_drivers.Common.Ipv4.{
  HostAddress, parse_parts, parse_ipv4, format_ipv4, prefix_length, is_usable_host, scan_hosts,
  validate_values, validate_set_ip,
}
use amiga_drivers.Common.Ipv4.RoundTrip.{parse_ipv4-format_ipv4}
use amiga_drivers.Common.Ipv4.SetIp.{Accepted, validate_set_ip-Accepted}
use amiga_drivers.Common.RingBuffer.{RingBuffer}
use amiga_drivers.Common.RingBuffer.Fifo.{Holds, RingCall, ring_run, queue_run, ring_run-queue_run}
use amiga_drivers.Common.SensorSyncHub.{
  RateOps, SensorSyncBackend, SensorSyncHub, Call, new_hub, planned_rates, add_participant,
  register, start_session, arm, disarm, step, run,
}
use amiga_drivers.Common.SensorSyncHub.Board.{Recorded, recording}
use amiga_drivers.Common.SensorSyncHub.Session.{Final, disarm_then_run-Final}
use amiga_drivers.Common.SensorSyncHub.Rates.{AllServed, started_rates-AllServed}

parse_ipv4-format_ipv4_example : parse_ipv4 (format_ipv4 3232235777) ≡ some 3232235777
parse_ipv4-format_ipv4_example = parse_ipv4-format_ipv4 3232235777 (omega arith)

abbrev hosts : List HostAddress
hosts = record { ip = codes "192.168.1.1"; subnet_mask = codes "255.255.255.0" } ∷ []

address_accepted :
    validate_set_ip
      (codes "192.168.1.10")
      (codes "255.255.255.0")
      (codes "192.168.1.254")
      hosts
      false
    ≡ none
unfolding validate_set_ip validate_values scan_hosts is_usable_host prefix_length parse_ipv4
    parse_parts
address_accepted = refl

validate_set_ip-Accepted_example :
    Accepted (codes "192.168.1.10") (codes "255.255.255.0") (codes "192.168.1.254") hosts false
validate_set_ip-Accepted_example =
    validate_set_ip-Accepted (codes "192.168.1.10") (codes "255.255.255.0") (codes "192.168.1.254")
      hosts false address_accepted

-- The next push is at the last index of a size_t, and the one after it at 0.
abbrev nearly_wrapped : RingBuffer ℕ
nearly_wrapped = record {
  capacity = 2;
  mask = 1;
  storage = λ i. none;
  head = 2 ^ 64 - 1;
  tail = 2 ^ 64 - 1;
}

nearly_wrapped-Holds : Holds 1 (2 ^ 64 - 1) nearly_wrapped []
nearly_wrapped-Holds = record {
  small = omega arith;
  capacity = refl;
  mask = refl;
  tail = refl;
  head = refl;
  room = omega arith;
  slots = tt;
}

abbrev ring_calls : List (RingCall ℕ)
ring_calls =
    RingCall.push_call 1
    ∷ RingCall.push_call 2
    ∷ RingCall.push_call 3
    ∷ RingCall.pop_call
    ∷ RingCall.pop_call
    ∷ RingCall.pop_call
    ∷ []

ring_run-queue_run_example : ring_run ring_calls nearly_wrapped ≡ queue_run (pow2 1) ring_calls []
ring_run-queue_run_example =
    ring_run-queue_run 1 (2 ^ 64 - 1) ring_calls nearly_wrapped [] nearly_wrapped-Holds

-- Rates in Hz, and a board that counts the calls and always answers well.
abbrev whole_hz : RateOps ℕ
whole_hz = record { same_rate = λ a b. a == b; zero_rate = 0; valid_rate = λ g r. leb r 100 }

abbrev counting_board : SensorSyncBackend ℕ ℕ
counting_board = record {
  open_port = λ b. (true, b + 1);
  start = λ b rates. (true, b + 1);
  stop = λ b. b + 1;
  ok = λ b. true;
}

-- Two participants of one pair, who arm one after the other.
abbrev hub_calls : List (Call ℕ)
hub_calls =
    Call.register_call (1 ∷ []) 0 25
    ∷ Call.register_call (2 ∷ []) 1 25
    ∷ Call.arm_call (1 ∷ [])
    ∷ Call.arm_call (2 ∷ [])
    ∷ []

-- The same hub, with a board that keeps the STARTs.
abbrev recorded_hub : SensorSyncHub ℕ (Recorded ℕ ℕ)
recorded_hub = run whole_hz (recording counting_board) hub_calls (new_hub (7 ∷ []) (0, []))

abbrev running_hub : SensorSyncHub ℕ ℕ
running_hub = run whole_hz counting_board hub_calls (new_hub (7 ∷ []) 0)

hub_starts : running_hub.started ≡ true
unfolding run step register add_participant arm start_session
hub_starts = refl

-- The START carries the rate of the pair, and none for the pair that nobody uses.
hub_sends : recorded_hub.board.1 ≡ ((0, 25) ∷ (2, 0) ∷ []) ∷ []
unfolding run step register add_participant arm start_session planned_rates
hub_sends = refl

started_rates-AllServed_example : AllServed whole_hz recorded_hub.board.1 running_hub.participants
started_rates-AllServed_example =
    started_rates-AllServed whole_hz counting_board (7 ∷ []) 0 hub_calls hub_starts

disarm_then_run-Final_example :
    Final whole_hz counting_board
      (disarm whole_hz counting_board (1 ∷ []) running_hub)
      (run whole_hz counting_board hub_calls (disarm whole_hz counting_board (1 ∷ []) running_hub))
disarm_then_run-Final_example =
    disarm_then_run-Final whole_hz counting_board (1 ∷ []) hub_calls running_hub
