-- ===== src/Common/SensorSyncHub/Rates.antt =====
-- The rates that common/src/sensor_sync_hub.cpp sends to the board with START.
use amiga_drivers.Prelude.{
  ℕ, ◌/◌, ◌≡◌, ◌⊎◌, ap, ◌∙◌, subst, true, Bool-cases, inl, inr, List, [], ◌∷◌, All, ◌==◌,
  if◌then◌else◌, arith,
}
use amiga_drivers.Common.SensorSyncHub.{
  RateOps, SensorSyncBackend, Participant, Call, new_hub, group_rate, planned_rates, run,
}
use amiga_drivers.Common.SensorSyncHub.Pairs.{Compatible, AllPairs, InRange}
use amiga_drivers.Common.SensorSyncHub.Board.{recording}
use amiga_drivers.Common.SensorSyncHub.Session.{run-HubOk}

module _ {Hz : Type 0} (rates : RateOps Hz) where
  -- The rate that a group is sent: the participant's, or one that compares equal.
  abbrev pub Served : Hz → Hz → Type 0
  Served wanted sent = (sent ≡ wanted) ⊎ (rates.same_rate wanted sent ≡ true)

  next_rate :
      (g : ℕ) (p q : Participant Hz) (hz : Hz)
      → p.channel / 2 ≡ g
      → Compatible rates p q
      → Served p.pulse_hz hz
      → Served p.pulse_hz (if q.channel / 2 == g then q.pulse_hz else hz)
  next_rate g p q hz e c k = elim (Bool-cases (q.channel / 2 == g)) [
    | inl same ↦ inr (ground (arith, same, e, c.pair_rate))
    | inr other ↦ subst (Served p.pulse_hz) (ground (arith, other)) k
  ]

  -- A rate that is chosen already stays, or gives way to one that compares equal.
  group_rate-later :
      (g : ℕ) (p : Participant Hz) (hz : Hz) (ps : List (Participant Hz))
      → p.channel / 2 ≡ g
      → All (Compatible rates p) ps
      → Served p.pulse_hz hz
      → Served p.pulse_hz (group_rate rates g hz ps)
  group_rate-later g p hz [] e h k = k
  group_rate-later g p hz (q ∷ ps) e h k =
      group_rate-later g p (if q.channel / 2 == g then q.pulse_hz else hz) ps e h.1
        (next_rate g p q hz e h.0 k)

  group_rate-Served :
      (g : ℕ) (hz : Hz) (ps : List (Participant Hz))
      → AllPairs rates ps
      → All (λ p. p.channel / 2 ≡ g → Served p.pulse_hz (group_rate rates g hz ps)) ps
  group_rate-Served g hz [] h = tt
  group_rate-Served g hz (p ∷ ps) h = (
    λ e.
        group_rate-later g p (if p.channel / 2 == g then p.pulse_hz else hz) ps e h.0
          (inl (ground (arith, e))),
    group_rate-Served g (if p.channel / 2 == g then p.pulse_hz else hz) ps h.1,
  )

  -- The rates that a START carries for a pair.
  abbrev pub rates_of : ℕ → List (ℕ × Hz) → List Hz
  rates_of pair [] = []
  rates_of pair (r ∷ rs) =
      let rest = rates_of pair rs in if r.0 / 2 == pair then r.1 ∷ rest else rest

  -- A START carries one rate for the participant's pair, and it serves the participant.
  pub record IsServed (sent : List (ℕ × Hz)) (p : Participant Hz) : Type 0 where
    pub hz : Hz
    pub one : rates_of (p.channel / 2) sent ≡ hz ∷ []
    pub serves : Served p.pulse_hz hz

  -- Of all that was sent with START, one after another: one START, that serves every participant.
  pub record AllServed (sent : List (List (ℕ × Hz))) (ps : List (Participant Hz)) : Type 0 where
    pub start : List (ℕ × Hz)
    pub only : sent ≡ start ∷ []
    pub served : All (IsServed start) ps

  both-IsServed :
      (a b : Hz) (ps : List (Participant Hz))
      → All InRange ps
      → All (λ p. p.channel / 2 ≡ 0 → Served p.pulse_hz a) ps
      → All (λ p. p.channel / 2 ≡ 1 → Served p.pulse_hz b) ps
      → All (IsServed ((0, a) ∷ (2, b) ∷ [])) ps
  both-IsServed a b [] i h k = tt
  both-IsServed a b (p ∷ ps) i h k = (
    elim (Bool-cases (p.channel / 2 == 0)) [
      | inl first ↦ record {
        hz = a;
        one = ground (arith, first);
        serves = h.0 (ground (arith, first));
      }
      | inr second ↦
          let e : p.channel / 2 ≡ 1 = ground (arith, second, i.0) in
          record { hz = b; one = ground (arith, e); serves = k.0 e }
    ],
    both-IsServed a b ps i.1 h.1 k.1,
  )

  planned_rates-IsServed :
      (ps : List (Participant Hz))
      → AllPairs rates ps
      → All InRange ps
      → All (IsServed (planned_rates rates ps)) ps
  unfolding planned_rates
  planned_rates-IsServed ps h i =
      both-IsServed (group_rate rates 0 rates.zero_rate ps) (group_rate rates 1 rates.zero_rate ps)
        ps i (group_rate-Served 0 rates.zero_rate ps h) (group_rate-Served 1 rates.zero_rate ps h)

-- Whatever is called, in any order, on a new hub: once the session has started, the board has been sent one
-- START in all, and for the pair of each participant that START carries one rate, which is the
-- participant's or compares equal to it. What the board has been sent is the record of a board that keeps
-- its STARTs, after the same calls.
pub started_rates-AllServed :
    {Hz B : Type 0} (rates : RateOps Hz) (backend : SensorSyncBackend Hz B) (port : List ℕ)
    (board : B) (calls : List (Call Hz))
    → (run rates backend calls (new_hub port board)).started ≡ true
    → AllServed rates
        (run rates (recording backend) calls (new_hub port (board, []))).board.1
        (run rates backend calls (new_hub port board)).participants
started_rates-AllServed rates backend port board calls e =
    let (k, same) = run-HubOk rates backend port board calls in
    let kept = run rates (recording backend) calls (new_hub port (board, [])) in
    let planned = planned_rates-IsServed rates kept.participants k.pairs k.channels in
    record {
      start = planned_rates rates kept.participants;
      only = k.sent (ap (λ s. s.started) same ∙ e);
      served =
          subst (λ s. All (IsServed rates (planned_rates rates kept.participants)) s.participants)
            same planned;
    }
