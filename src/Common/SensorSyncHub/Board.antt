-- ===== src/Common/SensorSyncHub/Board.antt =====
-- What the board of common/src/sensor_sync_hub.cpp is sent: any board, with a record of its STARTs.
use amiga_drivers.Prelude.{
  ℕ, ◌≡◌, refl, ap, ◌∙◌, false, Option-cases, inl, inr, List, [], ◌∷◌, ◌++◌, arith,
}
use amiga_drivers.Common.SensorSyncHub.{
  RateOps, SensorSyncBackend, Participant, SensorSyncHub, Call, fail_locked, arm_first, conflict,
  add_participant, register, start_session, arm, disarm, step, run,
}

-- A board with the STARTs that it has been sent, in their order.
abbrev pub Recorded : Type 0 → Type 0 → Type 0
Recorded Hz B = B × List (List (ℕ × Hz))

-- Any board, made to keep what START carries.
abbrev pub recording :
    {Hz B : Type 0} → SensorSyncBackend Hz B → SensorSyncBackend Hz (Recorded Hz B)
recording backend = record {
  open_port = λ b. let r = backend.open_port b.0 in (r.0, (r.1, b.1));
  start = λ b sent. let r = backend.start b.0 sent in (r.0, (r.1, b.1 ++ (sent ∷ [])));
  stop = λ b. (backend.stop b.0, b.1);
  ok = λ b. backend.ok b.0;
}

-- The hub without that record.
abbrev pub forget : {Hz B : Type 0} → SensorSyncHub Hz (Recorded Hz B) → SensorSyncHub Hz B
forget s = record {
  board = s.board.0;
  port = s.port;
  opened = s.opened;
  started = s.started;
  ended = s.ended;
  failed = s.failed;
  last_error = s.last_error;
  participants = s.participants;
  started_rates = s.started_rates;
}

module _ {Hz B : Type 0} (rates : RateOps Hz) (backend : SensorSyncBackend Hz B) where
  forget-add_participant :
      (p : Participant Hz) (s : SensorSyncHub Hz (Recorded Hz B))
      → forget (add_participant rates (recording backend) p s).1
        ≡ (add_participant rates backend p (forget s)).1
  unfolding add_participant fail_locked
  forget-add_participant p s = ground arith

  forget-register :
      (owner : List ℕ) (channel : ℕ) (pulse_hz : Hz) (s : SensorSyncHub Hz (Recorded Hz B))
      → forget (register rates (recording backend) owner channel pulse_hz s).1
        ≡ (register rates backend owner channel pulse_hz (forget s)).1
  unfolding register
  forget-register owner channel pulse_hz s =
      let p : Participant Hz = record {
        owner = owner;
        channel = channel;
        pulse_hz = pulse_hz;
        armed = false;
      } in
      elim (Option-cases (conflict rates owner channel pulse_hz s.participants)) [
        | inl free ↦ ground (arith, free, forget-add_participant p s)
        | inr (e, taken) ↦ ground (arith, taken)
      ]

  forget-start_session :
      (s : SensorSyncHub Hz (Recorded Hz B))
      → forget (start_session rates (recording backend) s).1
        ≡ (start_session rates backend (forget s)).1
  unfolding start_session fail_locked
  forget-start_session s = ground arith

  forget-arm :
      (owner : List ℕ) (s : SensorSyncHub Hz (Recorded Hz B))
      → forget (arm rates (recording backend) owner s).1 ≡ (arm rates backend owner (forget s)).1
  unfolding arm
  forget-arm owner s =
      ground
        (arith, forget-start_session (record s { participants = arm_first owner s.participants }))

  forget-disarm :
      (owner : List ℕ) (s : SensorSyncHub Hz (Recorded Hz B))
      → forget (disarm rates (recording backend) owner s) ≡ disarm rates backend owner (forget s)
  unfolding disarm fail_locked
  forget-disarm owner s = ground arith

  -- To keep the record changes nothing else.
  pub forget-run :
      (calls : List (Call Hz)) (s : SensorSyncHub Hz (Recorded Hz B))
      → forget (run rates (recording backend) calls s) ≡ run rates backend calls (forget s)
  unfolding run step
  forget-run [] s = refl
  forget-run (Call.register_call owner channel hz ∷ calls) s =
      forget-run calls _ ∙ ap (run rates backend calls) (forget-register owner channel hz s)
  forget-run (Call.arm_call owner ∷ calls) s =
      forget-run calls _ ∙ ap (run rates backend calls) (forget-arm owner s)
  forget-run (Call.disarm_call owner ∷ calls) s =
      forget-run calls _ ∙ ap (run rates backend calls) (forget-disarm owner s)
