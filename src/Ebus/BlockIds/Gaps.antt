-- ===== src/Ebus/BlockIds/Gaps.antt =====
-- What the observations of ebus_driver/include/ebus_driver/block_ids.h say of a stream of numbered frames.
use amiga_drivers.Prelude.{
  ℕ, suc, ◌+◌, ◌-◌, ◌%◌, ◌≤◌, ◌≡◌, refl, Bool, true, false, ◌||◌, List, [], ◌∷◌, map, leb, ◌==◌,
  if◌then◌else◌, arith,
}
use amiga_drivers.Ebus.BlockIds.{
  Observation, BlockIds, new_block_ids, anomalous, lost, observe, observe_all,
}

-- The ID that the camera gives to its k-th frame.
unfoldable pub wire : Bool → ℕ → ℕ
wire extended k = if extended then suc k else suc (k % 65535)

-- A frame that arrives: so many before it are lost, or it is so many behind the last one that was counted.
pub data Arrival : Type 0 where
  ahead : ℕ → Arrival
  behind : ℕ → Arrival

-- The IDs of the frames that arrive after the k-th one.
unfoldable pub arriving : Bool → ℕ → List Arrival → List ℕ
arriving extended k [] = []
arriving extended k (Arrival.ahead n ∷ rest) =
    wire extended (k + suc n) ∷ arriving extended (k + suc n) rest
arriving extended k (Arrival.behind d ∷ rest) = wire extended (k - d) ∷ arriving extended k rest

-- Every frame has a number, and in the cycle of 16 bits it is less than half of the cycle away.
abbrev pub IsClear : Bool → ℕ → List Arrival → Type 0
IsClear extended k [] = Unit {0}
IsClear extended k (Arrival.ahead n ∷ rest) =
    ((extended || leb n 32767) ≡ true) × IsClear extended (k + suc n) rest
IsClear extended k (Arrival.behind d ∷ rest) =
    (d ≤ k) × (((extended || leb d 32766) ≡ true) × IsClear extended k rest)

-- What should be observed of it.
unfoldable pub due : Arrival → Observation
due (Arrival.ahead n) = lost n
due (Arrival.behind d) = anomalous

-- The frame that was seen last.
abbrev seen : Bool → ℕ → BlockIds
seen extended k = record { extended = extended; have_last = true; last = wire extended k }

observe_next :
    (extended : Bool) (k n : ℕ)
    → (extended || leb n 32767) ≡ true
    → observe (wire extended (k + suc n)) (seen extended k) ≡ (lost n, seen extended (k + suc n))
unfolding observe wire
observe_next true k n h = ground arith
observe_next false k n h =
    let far : (suc ((k + suc n) % 65535)
            + 65535
            - (if suc (k % 65535) == 65535 then 1 else suc (k % 65535) + 1))
          % 65535
        ≡ n =
      ground arith in
    ground arith

observe_late :
    (extended : Bool) (k d : ℕ)
    → d ≤ k
    → (extended || leb d 32766) ≡ true
    → observe (wire extended (k - d)) (seen extended k) ≡ (anomalous, seen extended k)
unfolding observe wire
observe_late true k d le h = ground arith
observe_late false k d le h = ground arith

observe_all-seen :
    (extended : Bool) (k : ℕ) (arrivals : List Arrival)
    → IsClear extended k arrivals
    → observe_all (arriving extended k arrivals) (seen extended k) ≡ map due arrivals
unfolding observe_all arriving due
observe_all-seen extended k [] h = refl
observe_all-seen extended k (Arrival.ahead n ∷ rest) h =
    ground (arith, observe_next extended k n h.0, observe_all-seen extended (k + suc n) rest h.1)
observe_all-seen extended k (Arrival.behind d ∷ rest) h =
    ground (arith, observe_late extended k d h.0 h.1.0, observe_all-seen extended k rest h.1.1)

-- A camera numbers its frames in one of the two cycles. Where each frame that arrives is less than half of a
-- cycle of 16 bits away (any distance in the other mode), every frame ahead is observed with exactly the
-- number of frames that were lost before it, and every frame that is repeated or late is an anomaly which
-- counts no loss and does not disturb the observations after it.
pub observe_all-arriving :
    (extended : Bool) (k : ℕ) (arrivals : List Arrival)
    → IsClear extended k arrivals
    → observe_all (wire extended k ∷ arriving extended k arrivals) (new_block_ids extended)
      ≡ lost 0 ∷ map due arrivals
unfolding observe_all observe wire
observe_all-arriving extended k arrivals h = ground (arith, observe_all-seen extended k arrivals h)
