-- ===== src/Ebus/BlockIds.antt =====
-- ebus_driver/include/ebus_driver/block_ids.h: the count of lost frames from the IDs of the received ones.
pub mod Gaps
use amiga_drivers.Prelude.{
  ℕ, suc, ◌+◌, ◌-◌, ◌%◌, Bool, true, false, not, ◌&&◌, ◌||◌, List, [], ◌∷◌, ltb, leb, ◌==◌,
  if◌then◌else◌,
}

pub record Observation : Type 0 where
  pub gap : ℕ
  pub anomaly : Bool

pub record BlockIds : Type 0 where
  pub extended : Bool
  pub have_last : Bool
  pub last : ℕ

abbrev pub new_block_ids : Bool → BlockIds
new_block_ids extended = record { extended = extended; have_last = false; last = 0 }

abbrev pub anomalous : Observation
anomalous = record { gap = 0; anomaly = true }

abbrev pub lost : ℕ → Observation
lost n = record { gap = n; anomaly = false }

-- The ID that follows in the cycle of 16 bits, and how far an ID is from it.
abbrev pub expected_after : ℕ → ℕ
expected_after last = if last == 65535 then 1 else last + 1

abbrev pub distance : ℕ → ℕ → ℕ
distance id expected = (id + 65535 - expected) % 65535

unfoldable pub observe : ℕ → BlockIds → Observation × BlockIds
observe id b =
    let next : BlockIds = record b { have_last = true; last = id } in
    let far = distance id (expected_after b.last) in
    if (id == 0) || (not b.extended && ltb 65535 id)
    then (anomalous, b)
    else if not b.have_last
    then (lost 0, next)
    else if b.extended
    then (if leb id b.last then (anomalous, b) else (lost (id - b.last - 1), next))
    else if ltb 32767 far
    then (anomalous, b)
    else (lost far, next)

-- The observations of the IDs of several frames.
unfoldable pub observe_all : List ℕ → BlockIds → List Observation
observe_all [] b = []
observe_all (id ∷ ids) b = let o = observe id b in o.0 ∷ observe_all ids o.1
