-- ===== src/Common/SensorSyncHub.antt =====
-- common/src/sensor_sync_hub.cpp: the participants that share the trigger board, and its one session.
-- The lock makes each call one step. The board (`SensorSyncBackend`) and the rates with their limits
-- (trigger_groups.h, of the firmware's repository) are parameters. An exception is a returned error; of
-- its text only the kind is kept. The clock of `WaitingSeconds` and the log lines are left out.
pub mod Pairs
pub mod Board
pub mod Session
pub mod Rates
use amiga_drivers.Prelude.{
  ℕ, suc, ◌*◌, ◌/◌, Bool, true, false, not, ◌&&◌, ◌||◌, Option, none, some, List, [], ◌∷◌, ◌++◌,
  length, bytes_eq, ltb, leb, ◌==◌, if◌then◌else◌,
}

abbrev pub channel_count : ℕ
channel_count = 4

-- The kinds of `SensorSyncError`.
pub data SensorSyncError : Type 0 where
  no_owner : SensorSyncError
  no_port : SensorSyncError
  too_late : SensorSyncError
  bad_channel : SensorSyncError
  bad_rate : SensorSyncError
  no_channel_left : SensorSyncError
  already_registered : SensorSyncError
  channel_claimed : SensorSyncError
  pair_rate_conflict : SensorSyncError
  board_error : SensorSyncError
  not_registered : SensorSyncError
  session_ended : SensorSyncError
  hub_failed : SensorSyncError
  integrity_failed : SensorSyncError

-- A pulse rate: `==`, no pulses, and `trigger::validRate` of a group.
pub record RateOps (Hz : Type 0) : Type 0 where
  pub same_rate : Hz → Hz → Bool
  pub zero_rate : Hz
  pub valid_rate : ℕ → Hz → Bool

-- What the hub calls of a board: false is an exception.
pub record SensorSyncBackend (Hz B : Type 0) : Type 0 where
  pub open_port : B → Bool × B
  pub start : B → List (ℕ × Hz) → Bool × B
  pub stop : B → B
  pub ok : B → Bool

pub record Participant (Hz : Type 0) : Type 0 where
  pub owner : List ℕ
  pub channel : ℕ
  pub pulse_hz : Hz
  pub armed : Bool

pub record SensorSyncHub (Hz B : Type 0) : Type 0 where
  pub board : B
  pub port : List ℕ
  pub opened : Bool
  pub started : Bool
  pub ended : Bool
  pub failed : Bool
  pub last_error : Option SensorSyncError
  pub participants : List (Participant Hz)
  pub started_rates : List (ℕ × Hz)

pub data ArmResult : Type 0 where
  running : ArmResult
  waiting : ArmResult
  refused : SensorSyncError → ArmResult

pub data Call (Hz : Type 0) : Type 0 where
  register_call : List ℕ → ℕ → Hz → Call Hz
  arm_call : List ℕ → Call Hz
  disarm_call : List ℕ → Call Hz

abbrev pub is_empty : List ℕ → Bool
is_empty [] = true
is_empty (x ∷ xs) = false

module _ {Hz B : Type 0} where
  abbrev pub new_hub : List ℕ → B → SensorSyncHub Hz B
  new_hub port board = record {
    board = board;
    port = port;
    opened = false;
    started = false;
    ended = false;
    failed = false;
    last_error = none;
    participants = [];
    started_rates = [];
  }

  -- `FailLocked(what)`: the first error is kept.
  unfoldable pub fail_locked : SensorSyncError → SensorSyncHub Hz B → SensorSyncHub Hz B
  fail_locked what s = record s {
    failed = true;
    last_error = elim s.last_error [ some e ↦ some e | none ↦ some what ];
  }

module _ {Hz : Type 0} where
  abbrev pub all_armed : List (Participant Hz) → Bool
  all_armed [] = true
  all_armed (p ∷ ps) = p.armed && all_armed ps

  abbrev pub has_owner : List ℕ → List (Participant Hz) → Bool
  has_owner owner [] = false
  has_owner owner (p ∷ ps) = bytes_eq p.owner owner || has_owner owner ps

  -- The participant that `find_if` finds, armed.
  abbrev pub arm_first : List ℕ → List (Participant Hz) → List (Participant Hz)
  arm_first owner [] = []
  arm_first owner (p ∷ ps) =
      let rest = arm_first owner ps in
      if bytes_eq p.owner owner then record p { armed = true } ∷ ps else p ∷ rest

module _ {Hz : Type 0} (rates : RateOps Hz) where
  -- The loop over the participants in `Register`.
  abbrev pub conflict : List ℕ → ℕ → Hz → List (Participant Hz) → Option SensorSyncError
  conflict owner channel pulse_hz [] = none
  conflict owner channel pulse_hz (p ∷ ps) =
      let rest = conflict owner channel pulse_hz ps in
      if bytes_eq p.owner owner
      then some SensorSyncError.already_registered
      else if p.channel == channel
      then some SensorSyncError.channel_claimed
      else if (p.channel / 2 == channel / 2) && not (rates.same_rate p.pulse_hz pulse_hz)
      then some SensorSyncError.pair_rate_conflict
      else rest

  -- The rate of a group: that of its last participant.
  abbrev pub group_rate : ℕ → Hz → List (Participant Hz) → Hz
  group_rate g hz [] = hz
  group_rate g hz (p ∷ ps) = group_rate g (if p.channel / 2 == g then p.pulse_hz else hz) ps

  -- `PlannedRatesLocked()`: one rate for each of the two groups, named by its first channel.
  unfoldable pub planned_rates : List (Participant Hz) → List (ℕ × Hz)
  planned_rates ps =
      (0, group_rate 0 rates.zero_rate ps) ∷ (2, group_rate 1 rates.zero_rate ps) ∷ []

  module _ {B : Type 0} (backend : SensorSyncBackend Hz B) where
    -- The board is opened by the first participant.
    unfoldable pub add_participant :
        Participant Hz → SensorSyncHub Hz B → Option SensorSyncError × SensorSyncHub Hz B
    add_participant p s =
        let r = backend.open_port s.board in
        let seen = record s { board = r.1 } in
        if s.opened
        then (none, record s { participants = s.participants ++ (p ∷ []) })
        else if r.0
        then (none, record seen { opened = true; participants = s.participants ++ (p ∷ []) })
        else (some SensorSyncError.board_error, fail_locked SensorSyncError.board_error seen)

    -- `Register(owner, channel, pulse_hz)`; a channel below 0 is none.
    unfoldable pub register :
        List ℕ → ℕ → Hz → SensorSyncHub Hz B → Option SensorSyncError × SensorSyncHub Hz B
    register owner channel pulse_hz s =
        if is_empty owner
        then (some SensorSyncError.no_owner, s)
        else if is_empty s.port
        then (some SensorSyncError.no_port, s)
        else if s.started || s.ended
        then (some SensorSyncError.too_late, s)
        else if leb channel_count channel
        then (some SensorSyncError.bad_channel, s)
        else if not (rates.valid_rate (channel / 2) pulse_hz)
        then (some SensorSyncError.bad_rate, s)
        else if leb channel_count (length s.participants)
        then (some SensorSyncError.no_channel_left, s)
        else elim (conflict owner channel pulse_hz s.participants) [
          | some e ↦ (some e, s)
          | none ↦
              add_participant
                (record { owner = owner; channel = channel; pulse_hz = pulse_hz; armed = false }) s
        ]

    -- The START, once the last participant has armed.
    unfoldable pub start_session : SensorSyncHub Hz B → ArmResult × SensorSyncHub Hz B
    start_session s =
        let planned = planned_rates s.participants in
        let r = backend.start s.board planned in
        let sent = record s { board = r.1; started_rates = planned } in
        if r.0 then (ArmResult.running, record sent { started = true }) else (
          ArmResult.refused SensorSyncError.board_error,
          fail_locked SensorSyncError.board_error sent,
        )

    unfoldable pub arm : List ℕ → SensorSyncHub Hz B → ArmResult × SensorSyncHub Hz B
    arm owner s =
        let next = record s { participants = arm_first owner s.participants } in
        if not (has_owner owner s.participants)
        then (ArmResult.refused SensorSyncError.not_registered, s)
        else if s.ended
        then (ArmResult.refused SensorSyncError.session_ended, s)
        else if s.failed
        then (ArmResult.refused SensorSyncError.hub_failed, s)
        else if s.started
        then (ArmResult.running, next)
        else if not (all_armed next.participants)
        then (ArmResult.waiting, next)
        else start_session next

    unfoldable pub disarm : List ℕ → SensorSyncHub Hz B → SensorSyncHub Hz B
    disarm owner s =
        let done = record s { ended = true; board = backend.stop s.board } in
        if s.ended
        then s
        else if not s.started
        then record s { ended = true }
        else if backend.ok done.board
        then done
        else fail_locked SensorSyncError.integrity_failed done

    unfoldable pub ok : SensorSyncHub Hz B → Bool
    ok s = not s.failed && (not s.started || backend.ok s.board)

    unfoldable pub step : Call Hz → SensorSyncHub Hz B → SensorSyncHub Hz B
    step (Call.register_call owner channel pulse_hz) s = (register owner channel pulse_hz s).1
    step (Call.arm_call owner) s = (arm owner s).1
    step (Call.disarm_call owner) s = disarm owner s

    unfoldable pub run : List (Call Hz) → SensorSyncHub Hz B → SensorSyncHub Hz B
    run [] s = s
    run (c ∷ cs) s = run cs (step c s)
