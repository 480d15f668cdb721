-- ===== src/Common/SensorSyncHub/Session.antt =====
-- The session of common/src/sensor_sync_hub.cpp: when it runs, and what the board has then been sent.
use amiga_drivers.Prelude.{
  ℕ, ◌≡◌, ◌≢◌, refl, sym, ap, ◌∙◌, true, false, leb, Option-cases, Bool-cases, inl, inr, none, List,
  [], ◌∷◌, length, All, arith,
}
use amiga_drivers.Common.SensorSyncHub.{
  RateOps, SensorSyncBackend, Participant, SensorSyncHub, Call, channel_count, new_hub, fail_locked,
  all_armed, has_owner, arm_first, conflict, planned_rates, add_participant, register,
  start_session, arm, disarm, step, run,
}
use amiga_drivers.Common.SensorSyncHub.Pairs.{
  Compatible, AllPairs, InRange, conflict-Compatible, All-snoc, AllPairs-snoc, AllPairs-arm_first,
  InRange-arm_first, all_armed-arm_first, planned_rates-arm_first,
}
use amiga_drivers.Common.SensorSyncHub.Board.{Recorded, recording, forget, forget-run}

module _ {Hz : Type 0} (rates : RateOps Hz) where
  module _ {B : Type 0} (backend : SensorSyncBackend Hz B) where
    -- What holds of a hub at any time, when its board keeps the STARTs that it is sent.
    pub record HubOk (s : SensorSyncHub Hz (Recorded Hz B)) : Type 0 where
      pub pairs : AllPairs rates s.participants
      pub channels : All InRange s.participants
      pub armed : s.started ≡ true → all_armed s.participants ≡ true
      pub opened : s.started ≡ true → s.opened ≡ true
      pub listed : s.opened ≡ false → s.participants ≡ []
      pub sent : s.started ≡ true → s.board.1 ≡ planned_rates rates s.participants ∷ []
      pub unsent : s.started ≡ false → s.failed ≡ false → s.board.1 ≡ []
      pub kept : s.started ≡ true → s.started_rates ≡ planned_rates rates s.participants
      pub told : s.failed ≡ true → s.last_error ≢ none

    add_participant-HubOk :
        (p : Participant Hz) (s : SensorSyncHub Hz (Recorded Hz B))
        → All (λ q. Compatible rates q p) s.participants
        → InRange p
        → s.started ≡ false
        → HubOk s
        → HubOk (add_participant rates (recording backend) p s).1
    unfolding add_participant fail_locked
    add_participant-HubOk p s c i n k = record {
      pairs = ground (arith, k.pairs, AllPairs-snoc rates s.participants p k.pairs c);
      channels = ground (arith, k.channels, All-snoc InRange s.participants p k.channels i);
      armed = ground (arith, n, k.armed);
      opened = ground (arith, n, k.opened);
      listed = ground (arith, k.listed);
      sent = ground (arith, n, k.sent);
      unsent = ground (arith, n, k.unsent);
      kept = ground (arith, n, k.kept);
      told = ground (arith, k.told);
    }

    register-HubOk :
        (owner : List ℕ) (channel : ℕ) (pulse_hz : Hz) (s : SensorSyncHub Hz (Recorded Hz B))
        → HubOk s
        → HubOk (register rates (recording backend) owner channel pulse_hz s).1
    unfolding register
    register-HubOk owner channel pulse_hz s k =
        let p : Participant Hz = record {
          owner = owner;
          channel = channel;
          pulse_hz = pulse_hz;
          armed = false;
        } in
        elim (Option-cases (conflict rates owner channel pulse_hz s.participants)) [
          | inl free ↦
              let c = conflict-Compatible rates p s.participants free in
              elim (Bool-cases s.started) [
                | inl n ↦ ground (arith, k, n)
                | inr n ↦ elim (Bool-cases (leb channel_count channel)) [
                  | inl beyond ↦ ground (arith, k, beyond)
                  | inr i ↦
                      ground (arith, k, free, add_participant-HubOk p s c (ground (arith, i)) n k)
                ]
              ]
          | inr (e, taken) ↦ ground (arith, k, taken)
        ]

    arm_first-HubOk :
        (owner : List ℕ) (s : SensorSyncHub Hz (Recorded Hz B))
        → HubOk s
        → HubOk (record s { participants = arm_first owner s.participants })
    arm_first-HubOk owner s k = record {
      pairs = AllPairs-arm_first rates owner s.participants k.pairs;
      channels = InRange-arm_first owner s.participants k.channels;
      armed = λ e. all_armed-arm_first owner s.participants (k.armed e);
      opened = k.opened;
      listed = λ e. ap (arm_first owner) (k.listed e);
      sent = λ e.
          k.sent e ∙ ap (λ x. x ∷ []) (sym (planned_rates-arm_first rates owner s.participants));
      unsent = k.unsent;
      kept = λ e. k.kept e ∙ sym (planned_rates-arm_first rates owner s.participants);
      told = k.told;
    }

    start_session-HubOk :
        (s : SensorSyncHub Hz (Recorded Hz B))
        → HubOk s
        → all_armed s.participants ≡ true
        → s.opened ≡ true
        → s.started ≡ false
        → s.failed ≡ false
        → HubOk (start_session rates (recording backend) s).1
    unfolding start_session fail_locked
    start_session-HubOk s k a o n f = record {
      pairs = ground (arith, k.pairs);
      channels = ground (arith, k.channels);
      armed = ground (arith, a);
      opened = ground (arith, o);
      listed = ground (arith, k.listed);
      sent = ground (arith, n, k.unsent n f);
      unsent = ground (arith, k.unsent n f);
      kept = ground (arith, n);
      told = ground (arith, k.told);
    }

    -- A hub with a participant has opened the port.
    owner_opened :
        (owner : List ℕ) (s : SensorSyncHub Hz (Recorded Hz B))
        → HubOk s
        → has_owner owner s.participants ≡ true
        → s.opened ≡ true
    owner_opened owner s k h = ground (arith, k.listed)

    arm-HubOk :
        (owner : List ℕ) (s : SensorSyncHub Hz (Recorded Hz B))
        → HubOk s
        → HubOk (arm rates (recording backend) owner s).1
    unfolding arm
    arm-HubOk owner s k =
        let next = arm_first-HubOk owner s k in
        let t : SensorSyncHub Hz (Recorded Hz B) = record s {
          participants = arm_first owner s.participants;
        } in
        ground (arith, k, next, owner_opened owner s k, start_session-HubOk t next)

    disarm-HubOk :
        (owner : List ℕ) (s : SensorSyncHub Hz (Recorded Hz B))
        → HubOk s
        → HubOk (disarm rates (recording backend) owner s)
    unfolding disarm fail_locked
    disarm-HubOk owner s k = record {
      pairs = ground (arith, k.pairs);
      channels = ground (arith, k.channels);
      armed = ground (arith, k.armed);
      opened = ground (arith, k.opened);
      listed = ground (arith, k.listed);
      sent = ground (arith, k.sent);
      unsent = ground (arith, k.unsent);
      kept = ground (arith, k.kept);
      told = ground (arith, k.told);
    }

    run-from :
        (cs : List (Call Hz)) (s : SensorSyncHub Hz (Recorded Hz B))
        → HubOk s
        → HubOk (run rates (recording backend) cs s)
    unfolding run step
    run-from [] s k = k
    run-from (Call.register_call owner channel hz ∷ cs) s k =
        run-from cs _ (register-HubOk owner channel hz s k)
    run-from (Call.arm_call owner ∷ cs) s k = run-from cs _ (arm-HubOk owner s k)
    run-from (Call.disarm_call owner ∷ cs) s k = run-from cs _ (disarm-HubOk owner s k)

    -- Once a session has ended, whatever is called: the board is not called again, no session starts, and
    -- nobody is registered.
    pub record Final (s t : SensorSyncHub Hz B) : Type 0 where
      pub ended : t.ended ≡ true
      pub board : t.board ≡ s.board
      pub started : t.started ≡ s.started
      pub count : length t.participants ≡ length s.participants

    step-Final :
        (c : Call Hz) (s : SensorSyncHub Hz B) → s.ended ≡ true → Final s (step rates backend c s)
    unfolding step register arm disarm
    step-Final (Call.register_call owner channel hz) s e = ground (arith, e)
    step-Final (Call.arm_call owner) s e = ground (arith, e)
    step-Final (Call.disarm_call owner) s e = ground (arith, e)

    run-Final :
        (cs : List (Call Hz)) (s : SensorSyncHub Hz B)
        → s.ended ≡ true
        → Final s (run rates backend cs s)
    unfolding run
    run-Final [] s e = record { ended = e; board = refl; started = refl; count = refl }
    run-Final (c ∷ cs) s e =
        let f = step-Final c s e in
        let g = run-Final cs (step rates backend c s) f.ended in
        record {
          ended = g.ended;
          board = g.board ∙ f.board;
          started = g.started ∙ f.started;
          count = g.count ∙ f.count;
        }

pub run-HubOk :
    {Hz B : Type 0} (rates : RateOps Hz) (backend : SensorSyncBackend Hz B) (port : List ℕ)
    (board : B) (calls : List (Call Hz))
    → HubOk rates backend (run rates (recording backend) calls (new_hub port (board, [])))
      × (forget (run rates (recording backend) calls (new_hub port (board, [])))
          ≡ run rates backend calls (new_hub port board))
run-HubOk rates backend port board calls = (
  run-from rates backend calls (new_hub port (board, [])) (record {
    pairs = tt;
    channels = tt;
    armed = λ _. refl;
    opened = λ e. absurd (cc e);
    listed = λ _. refl;
    sent = λ e. absurd (cc e);
    unsent = λ _ _. refl;
    kept = λ e. absurd (cc e);
    told = λ e. absurd (cc e);
  }),
  forget-run rates backend calls (new_hub port (board, [])),
)

-- After the first `Disarm`, no call, in whatever order, calls the board again, starts a session or
-- registers a participant.
pub disarm_then_run-Final :
    {Hz B : Type 0} (rates : RateOps Hz) (backend : SensorSyncBackend Hz B) (owner : List ℕ)
    (calls : List (Call Hz)) (s : SensorSyncHub Hz B)
    → Final rates backend
        (disarm rates backend owner s)
        (run rates backend calls (disarm rates backend owner s))
unfolding disarm fail_locked
disarm_then_run-Final rates backend owner calls s = run-Final rates backend calls _ (ground arith)
