-- ===== src/Common/RunGuards.antt =====
-- common/src/run_guards.cpp: when a recording is no longer worth continuing. The numbers of floating point are
-- a parameter: what is tested of them, and the seconds of a count of microseconds. A message is its values.
pub mod Latch
mod Tests
use amiga_drivers.Prelude.{
  ℕ, Bool, true, false, not, ◌&&◌, Option, none, some, List, [], ◌∷◌, bytes_eq, if◌then◌else◌,
}

-- `below a b` is a < b.
pub record Doubles (D : Type 0) : Type 0 where
  pub is_positive : D → Bool
  pub is_negative : D → Bool
  pub below : D → D → Bool
  pub seconds : ℕ → D

pub record GuardConfig (D : Type 0) : Type 0 where
  pub disk_min_free_gib : D
  pub disk_warn_free_gib : D
  pub no_data_warn_s : D
  pub no_data_abort_s : D

pub data Verdict : Type 0 where
  all_ok : Verdict
  warn : Verdict
  stop : Verdict

pub data Message (D : Type 0) : Type 0 where
  empty : Message D
  disk_below_floor : D → D → Message D
  disk_below_warning : D → D → Message D
  silent_abort : D → D → Message D
  no_data_for : D → Message D

pub record Result (D : Type 0) : Type 0 where
  pub verdict : Verdict
  pub message : Message D

-- `sensor_warn_latched_` is an association list by name.
pub record RunGuards : Type 0 where
  pub disk_warn_latched : Bool
  pub sensor_warn_latched : List (List ℕ × Bool)

abbrev pub new_guards : RunGuards
new_guards = record { disk_warn_latched = false; sensor_warn_latched = [] }

-- A name that is missing reads as false, as the entry that `latch` then makes.
unfoldable pub latched : List ℕ → List (List ℕ × Bool) → Bool
latched name [] = false
latched name (entry ∷ rest) = if bytes_eq name entry.0 then entry.1 else latched name rest

unfoldable pub set_latch : List ℕ → Bool → List (List ℕ × Bool) → List (List ℕ × Bool)
set_latch name b [] = (name, b) ∷ []
set_latch name b (entry ∷ rest) =
    let others = set_latch name b rest in
    if bytes_eq name entry.0 then (entry.0, b) ∷ rest else entry ∷ others

module _ {D : Type 0} (doubles : Doubles D) (cfg : GuardConfig D) where
  -- `return {}`
  abbrev pub quiet : Result D
  quiet = record { verdict = Verdict.all_ok; message = Message.empty }

  unfoldable pub check_disk : D → RunGuards → Result D × RunGuards
  check_disk free_gib g =
      if doubles.is_negative free_gib
      then (quiet, g)
      else if doubles.is_positive cfg.disk_min_free_gib
          && doubles.below free_gib cfg.disk_min_free_gib
      then (
        record {
          verdict = Verdict.stop;
          message = Message.disk_below_floor free_gib cfg.disk_min_free_gib;
        },
        g,
      )
      else if doubles.is_positive cfg.disk_warn_free_gib
          && doubles.below free_gib cfg.disk_warn_free_gib
      then (if g.disk_warn_latched then (quiet, g) else (
        record {
          verdict = Verdict.warn;
          message = Message.disk_below_warning free_gib cfg.disk_warn_free_gib;
        },
        record g { disk_warn_latched = true },
      ))
      else (quiet, record g { disk_warn_latched = false })

  -- `threshold > 0.0 && silent_s >= threshold`
  abbrev pub reached : D → ℕ → Bool
  reached threshold silent_us =
      doubles.is_positive threshold && not (doubles.below (doubles.seconds silent_us) threshold)

  unfoldable pub check_silence : List ℕ → ℕ → RunGuards → Result D × RunGuards
  check_silence name silent_us g =
      let silent_s = doubles.seconds silent_us in
      if reached cfg.no_data_abort_s silent_us
      then (
        record {
          verdict = Verdict.stop;
          message = Message.silent_abort silent_s cfg.no_data_abort_s;
        },
        g,
      )
      else if reached cfg.no_data_warn_s silent_us
      then (if latched name g.sensor_warn_latched then (quiet, g) else (
        record { verdict = Verdict.warn; message = Message.no_data_for silent_s },
        record g { sensor_warn_latched = set_latch name true g.sensor_warn_latched },
      ))
      else (quiet, record g { sensor_warn_latched = set_latch name false g.sensor_warn_latched })

  unfoldable pub check_sensor : List ℕ → Option ℕ → RunGuards → Result D × RunGuards
  check_sensor name none g =
      (quiet, record g { sensor_warn_latched = set_latch name false g.sensor_warn_latched })
  check_sensor name (some silent_us) g = check_silence name silent_us g

-- The checks of a run.
pub data Check (D : Type 0) : Type 0 where
  disk_check : D → Check D
  sensor_check : List ℕ → Option ℕ → Check D

module _ {D : Type 0} (doubles : Doubles D) (cfg : GuardConfig D) where
  unfoldable pub check : Check D → RunGuards → Result D × RunGuards
  check (Check.disk_check free_gib) g = check_disk doubles cfg free_gib g
  check (Check.sensor_check name silent_us) g = check_sensor doubles cfg name silent_us g

  unfoldable pub run_checks : List (Check D) → RunGuards → RunGuards
  run_checks [] g = g
  run_checks (c ∷ cs) g = run_checks cs (check c g).1
