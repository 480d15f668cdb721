-- ===== src/Common/RunGuards/Tests.antt =====
-- The theorems on common/src/run_guards.cpp at concrete inputs.
use amiga_drivers.Prelude.{ℕ, ◌/◌, ◌≡◌, refl, true, false, some, List, [], ◌∷◌, codes, ltb}
use amiga_drivers.Common.RunGuards.{
  Doubles, GuardConfig, Verdict, Check, new_guards, latched, set_latch, check_disk, check_silence,
  check_sensor, check, run_checks,
}
use amiga_drivers.Common.RunGuards.Latch.{Subject, some_well, check_warns_once, check_warns_again}

-- Whole numbers in place of floating point.
abbrev whole : Doubles ℕ
whole = record {
  is_positive = ltb 0;
  is_negative = λ x. false;
  below = ltb;
  seconds = λ n. n / 1000000;
}

abbrev config : GuardConfig ℕ
config = record {
  disk_min_free_gib = 5;
  disk_warn_free_gib = 20;
  no_data_warn_s = 5;
  no_data_abort_s = 60;
}

abbrev silent : Check ℕ
silent = Check.sensor_check (codes "lidar") (some 7000000)

-- The sensor is heard again, and the disk is low in the meantime.
abbrev between : List (Check ℕ)
between =
    Check.disk_check 12
    ∷ Check.sensor_check (codes "lidar") (some 100)
    ∷ Check.sensor_check (codes "camera") (some 9000000)
    ∷ []

first_warns : (check whole config silent new_guards).0.verdict ≡ Verdict.warn
unfolding check check_sensor check_silence latched
first_warns = refl

second_warns :
    (check whole config silent
      (run_checks whole config between (check whole config silent new_guards).1)).0.verdict
    ≡ Verdict.warn
unfolding check check_disk check_sensor check_silence latched set_latch run_checks
second_warns = refl

check_warns_once_example :
    some_well whole config (Subject.the_sensor (codes "lidar")) between ≡ true
check_warns_once_example =
    check_warns_once whole config (Subject.the_sensor (codes "lidar")) silent silent between
      new_guards refl first_warns second_warns

check_warns_again_example :
    (check whole config (Check.disk_check 12) (
      run_checks whole config
        (silent ∷ [])
        (check whole config (Check.disk_check 30) new_guards).1)).0.verdict
    ≡ Verdict.warn
check_warns_again_example =
    check_warns_again whole config Subject.the_disk (Check.disk_check 30) (Check.disk_check 12)
      (silent ∷ []) new_guards refl refl refl
