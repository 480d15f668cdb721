-- ===== src/Common/SensorSyncHub/Pairs.antt =====
-- Who may be registered together, in common/src/sensor_sync_hub.cpp, and what arming leaves as it is.
use amiga_drivers.Prelude.{
  ℕ, ◌/◌, ◌≡◌, ◌<◌, refl, true, false, not, ◌&&◌, Bool-cases, inl, inr, none, List, [], ◌∷◌, ◌++◌,
  bytes_eq, All, ◌==◌, if◌then◌else◌, arith,
}
use amiga_drivers.Common.SensorSyncHub.{
  RateOps, Participant, channel_count, all_armed, arm_first, conflict, group_rate, planned_rates,
}

-- A channel of the board.
abbrev pub InRange : {Hz : Type 0} → Participant Hz → Type 0
InRange p = p.channel < channel_count

module _ {Hz : Type 0} where
  pub All-snoc :
      (P : Participant Hz → Type 0) (ps : List (Participant Hz)) (q : Participant Hz)
      → All P ps
      → P q
      → All P (ps ++ (q ∷ []))
  All-snoc P [] q h k = (k, tt)
  All-snoc P (p ∷ ps) q h k = (h.0, All-snoc P ps q h.1 k)

  pub all_armed-arm_first :
      (owner : List ℕ) (ps : List (Participant Hz))
      → all_armed ps ≡ true
      → all_armed (arm_first owner ps) ≡ true
  all_armed-arm_first owner [] h = refl
  all_armed-arm_first owner (q ∷ ps) h = ground (arith, all_armed-arm_first owner ps)

  pub InRange-arm_first :
      (owner : List ℕ) (ps : List (Participant Hz))
      → All InRange ps
      → All InRange (arm_first owner ps)
  InRange-arm_first owner [] h = tt
  InRange-arm_first owner (q ∷ ps) h = elim (Bool-cases (bytes_eq q.owner owner)) [
    | inl e ↦ ground (arith, e, h)
    | inr e ↦ ground (arith, e, h, InRange-arm_first owner ps h.1)
  ]

module _ {Hz : Type 0} (rates : RateOps Hz) where
  -- Two participants that the board can serve together, the second registered later.
  pub record Compatible (p q : Participant Hz) : Type 0 where
    pub other_owner : bytes_eq p.owner q.owner ≡ false
    pub other_channel : (p.channel == q.channel) ≡ false
    pub pair_rate :
        ((p.channel / 2 == q.channel / 2) && not (rates.same_rate p.pulse_hz q.pulse_hz)) ≡ false

  abbrev pub AllPairs : List (Participant Hz) → Type 0
  AllPairs [] = Unit {0}
  AllPairs (p ∷ ps) = All (Compatible p) ps × AllPairs ps

  pub conflict-Compatible :
      (q : Participant Hz) (ps : List (Participant Hz))
      → conflict rates q.owner q.channel q.pulse_hz ps ≡ none
      → All (λ p. Compatible p q) ps
  conflict-Compatible q [] e = tt
  conflict-Compatible q (p ∷ ps) e = (
    record { other_owner = ground arith; other_channel = ground arith; pair_rate = ground arith },
    conflict-Compatible q ps (ground arith),
  )

  pub AllPairs-snoc :
      (ps : List (Participant Hz)) (q : Participant Hz)
      → AllPairs ps
      → All (λ p. Compatible p q) ps
      → AllPairs (ps ++ (q ∷ []))
  AllPairs-snoc [] q h k = (tt, tt)
  AllPairs-snoc (p ∷ ps) q h k = (All-snoc (Compatible p) ps q h.0 k.0, AllPairs-snoc ps q h.1 k.1)

  -- Arming changes no owner, channel or rate.
  pub All-arm_first :
      (p : Participant Hz) (owner : List ℕ) (ps : List (Participant Hz))
      → All (Compatible p) ps
      → All (Compatible p) (arm_first owner ps)
  All-arm_first p owner [] h = tt
  All-arm_first p owner (q ∷ ps) h = elim (Bool-cases (bytes_eq q.owner owner)) [
    | inl e ↦ ground (arith, e, h)
    | inr e ↦ ground (arith, e, h, All-arm_first p owner ps h.1)
  ]

  pub All-armed :
      (p : Participant Hz) (ps : List (Participant Hz))
      → All (Compatible p) ps
      → All (Compatible (record p { armed = true })) ps
  All-armed p [] h = tt
  All-armed p (q ∷ ps) h = (
    record {
      other_owner = h.0.other_owner;
      other_channel = h.0.other_channel;
      pair_rate = h.0.pair_rate;
    },
    All-armed p ps h.1,
  )

  pub AllPairs-arm_first :
      (owner : List ℕ) (ps : List (Participant Hz)) → AllPairs ps → AllPairs (arm_first owner ps)
  AllPairs-arm_first owner [] h = tt
  AllPairs-arm_first owner (q ∷ ps) h = elim (Bool-cases (bytes_eq q.owner owner)) [
    | inl e ↦ ground (arith, e, h, All-armed q ps h.0)
    | inr e ↦ ground (arith, e, h, All-arm_first q owner ps h.0, AllPairs-arm_first owner ps h.1)
  ]

  pub group_rate-arm_first :
      (g : ℕ) (hz : Hz) (owner : List ℕ) (ps : List (Participant Hz))
      → group_rate rates g hz (arm_first owner ps) ≡ group_rate rates g hz ps
  group_rate-arm_first g hz owner [] = refl
  group_rate-arm_first g hz owner (q ∷ ps) =
      ground
        (arith, group_rate-arm_first g (if q.channel / 2 == g then q.pulse_hz else hz) owner ps)

  pub planned_rates-arm_first :
      (owner : List ℕ) (ps : List (Participant Hz))
      → planned_rates rates (arm_first owner ps) ≡ planned_rates rates ps
  unfolding planned_rates
  planned_rates-arm_first owner ps = ground (
    arith,
    group_rate-arm_first 0 rates.zero_rate owner ps,
    group_rate-arm_first 1 rates.zero_rate owner ps,
  )
