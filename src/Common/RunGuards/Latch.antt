-- ===== src/Common/RunGuards/Latch.antt =====
-- How often the guards of common/src/run_guards.cpp warn.
use amiga_drivers.Prelude.{
  ℕ, ◌≡◌, refl, Bool, true, false, not, ◌&&◌, ◌||◌, Bool-cases, inl, inr, Option, none, some, ◌∙◌,
  List, [], ◌∷◌, bytes_eq, bytes_eq_sound, bytes_eq_refl, arith,
}
use amiga_drivers.Common.RunGuards.{
  Doubles, GuardConfig, Verdict, Result, RunGuards, Check, latched, set_latch, check_disk, reached,
  check_silence, check_sensor, check, run_checks,
}

latched-set_latch :
    (name : List ℕ) (b : Bool) (l : List (List ℕ × Bool)) → latched name (set_latch name b l) ≡ b
unfolding latched set_latch
latched-set_latch name b [] = ground (arith, bytes_eq_refl name)
latched-set_latch name b (entry ∷ rest) =
    ground (arith, bytes_eq_refl name, latched-set_latch name b rest)

latched-set_latch_other :
    (name other : List ℕ) (b : Bool) (l : List (List ℕ × Bool))
    → bytes_eq name other ≡ false
    → latched name (set_latch other b l) ≡ latched name l
unfolding latched set_latch
latched-set_latch_other name other b [] h = ground (arith, h)
latched-set_latch_other name other b (entry ∷ rest) h = elim (Bool-cases (bytes_eq other entry.0)) [
  | inl e ↦ ground (arith, h, e, bytes_eq_sound other entry.0 e)
  | inr e ↦ ground (arith, e, latched-set_latch_other name other b rest h)
]

-- What a warning is about: the disk, or the sensor of this name.
pub data Subject : Type 0 where
  the_disk : Subject
  the_sensor : List ℕ → Subject

module _ {D : Type 0} where
  abbrev pub concerns : Subject → Check D → Bool
  concerns Subject.the_disk (Check.disk_check free_gib) = true
  concerns Subject.the_disk (Check.sensor_check name silent_us) = false
  concerns (Subject.the_sensor n) (Check.disk_check free_gib) = false
  concerns (Subject.the_sensor n) (Check.sensor_check name silent_us) = bytes_eq n name

  abbrev pub none_concerns : Subject → List (Check D) → Bool
  none_concerns subject [] = true
  none_concerns subject (c ∷ cs) = not (concerns subject c) && none_concerns subject cs

-- Whether a warning about the subject has been given and not been taken back.
abbrev is_warned : Subject → RunGuards → Bool
is_warned Subject.the_disk g = g.disk_warn_latched
is_warned (Subject.the_sensor n) g = latched n g.sensor_warn_latched

module _ {D : Type 0} (doubles : Doubles D) (cfg : GuardConfig D) where
  abbrev pub below_floor : D → D → Bool
  below_floor floor free_gib = doubles.is_positive floor && doubles.below free_gib floor

  -- The check finds less than the warning asks for, and not so little that the run is stopped.
  abbrev pub is_low : Check D → Bool
  is_low (Check.disk_check free_gib) =
      (not (doubles.is_negative free_gib) && not (below_floor cfg.disk_min_free_gib free_gib))
      && below_floor cfg.disk_warn_free_gib free_gib
  is_low (Check.sensor_check name none) = false
  is_low (Check.sensor_check name (some silent_us)) =
      not (reached doubles cfg cfg.no_data_abort_s silent_us)
      && reached doubles cfg cfg.no_data_warn_s silent_us

  -- The check finds that all is well again, or that the sensor may be silent.
  abbrev pub is_well : Check D → Bool
  is_well (Check.disk_check free_gib) =
      (not (doubles.is_negative free_gib) && not (below_floor cfg.disk_min_free_gib free_gib))
      && not (below_floor cfg.disk_warn_free_gib free_gib)
  is_well (Check.sensor_check name none) = true
  is_well (Check.sensor_check name (some silent_us)) =
      not (reached doubles cfg cfg.no_data_abort_s silent_us)
      && not (reached doubles cfg cfg.no_data_warn_s silent_us)

  abbrev pub some_well : Subject → List (Check D) → Bool
  some_well subject [] = false
  some_well subject (c ∷ cs) = (concerns subject c && is_well c) || some_well subject cs

  -- How a check changes what has been warned about.
  record Changes (subject : Subject) (c : Check D) (g : RunGuards) (q : Result D × RunGuards)
      : Type 0 where
    rearms : (concerns subject c && is_well c) ≡ true → is_warned subject q.1 ≡ false
    keeps :
        (concerns subject c && is_well c) ≡ false
        → is_warned subject g ≡ true
        → is_warned subject q.1 ≡ true
    leaves : concerns subject c ≡ false → is_warned subject q.1 ≡ is_warned subject g
    warns :
        concerns subject c ≡ true
        → (is_low c && not (is_warned subject g)) ≡ true
        → q.0.verdict ≡ Verdict.warn
    warned :
        concerns subject c ≡ true
        → q.0.verdict ≡ Verdict.warn
        → (is_warned subject g ≡ false) × (is_warned subject q.1 ≡ true)

  check_disk-Changes :
      (subject : Subject) (free_gib : D) (g : RunGuards)
      → Changes subject (Check.disk_check free_gib) g (check_disk doubles cfg free_gib g)
  unfolding check_disk
  check_disk-Changes Subject.the_disk free_gib g = record {
    rearms = ground arith;
    keeps = ground arith;
    leaves = ground arith;
    warns = ground arith;
    warned = ground arith;
  }
  check_disk-Changes (Subject.the_sensor n) free_gib g = record {
    rearms = ground arith;
    keeps = ground arith;
    leaves = ground arith;
    warns = ground arith;
    warned = ground arith;
  }

  -- A check of another sensor.
  sensor_other :
      (n name : List ℕ) (silent_us : Option ℕ) (g : RunGuards)
      → bytes_eq n name ≡ false
      → Changes
          (Subject.the_sensor n)
          (Check.sensor_check name silent_us)
          g
          (check_sensor doubles cfg name silent_us g)
  unfolding check_sensor check_silence
  sensor_other n name none g h = record {
    rearms = ground (arith, h, latched-set_latch_other n name false g.sensor_warn_latched h);
    keeps = ground (arith, h, latched-set_latch_other n name false g.sensor_warn_latched h);
    leaves = ground (arith, h, latched-set_latch_other n name false g.sensor_warn_latched h);
    warns = ground (arith, h, latched-set_latch_other n name false g.sensor_warn_latched h);
    warned = ground (arith, h, latched-set_latch_other n name false g.sensor_warn_latched h);
  }
  sensor_other n name (some silent_us) g h =
      let off = latched-set_latch_other n name false g.sensor_warn_latched h in
      let on = latched-set_latch_other n name true g.sensor_warn_latched h in
      record {
        rearms = ground (arith, h, off, on);
        keeps = ground (arith, h, off, on);
        leaves = ground (arith, h, off, on);
        warns = ground (arith, h, off, on);
        warned = ground (arith, h, off, on);
      }

  -- A check of this sensor.
  sensor_mine :
      (n name : List ℕ) (silent_us : Option ℕ) (g : RunGuards)
      → n ≡ name
      → Changes
          (Subject.the_sensor n)
          (Check.sensor_check name silent_us)
          g
          (check_sensor doubles cfg name silent_us g)
  unfolding check_sensor check_silence
  sensor_mine n name none g e = record {
    rearms =
        ground (arith, e, bytes_eq_refl name, latched-set_latch name false g.sensor_warn_latched);
    keeps =
        ground (arith, e, bytes_eq_refl name, latched-set_latch name false g.sensor_warn_latched);
    leaves =
        ground (arith, e, bytes_eq_refl name, latched-set_latch name false g.sensor_warn_latched);
    warns =
        ground (arith, e, bytes_eq_refl name, latched-set_latch name false g.sensor_warn_latched);
    warned =
        ground (arith, e, bytes_eq_refl name, latched-set_latch name false g.sensor_warn_latched);
  }
  sensor_mine n name (some silent_us) g e =
      let off = latched-set_latch name false g.sensor_warn_latched in
      let on = latched-set_latch name true g.sensor_warn_latched in
      let same = bytes_eq_refl name in
      record {
        rearms = ground (arith, e, same, off, on);
        keeps = ground (arith, e, same, off, on);
        leaves = ground (arith, e, same, off, on);
        warns = ground (arith, e, same, off, on);
        warned = ground (arith, e, same, off, on);
      }

  check_sensor-Changes :
      (subject : Subject) (name : List ℕ) (silent_us : Option ℕ) (g : RunGuards)
      → Changes subject
          (Check.sensor_check name silent_us)
          g
          (check_sensor doubles cfg name silent_us g)
  unfolding check_sensor check_silence
  check_sensor-Changes Subject.the_disk name none g = record {
    rearms = ground arith;
    keeps = ground arith;
    leaves = ground arith;
    warns = ground arith;
    warned = ground arith;
  }
  check_sensor-Changes Subject.the_disk name (some silent_us) g = record {
    rearms = ground arith;
    keeps = ground arith;
    leaves = ground arith;
    warns = ground arith;
    warned = ground arith;
  }
  check_sensor-Changes (Subject.the_sensor n) name silent_us g =
      elim (Bool-cases (bytes_eq n name)) [
        | inl mine ↦ sensor_mine n name silent_us g (bytes_eq_sound n name mine)
        | inr other ↦ sensor_other n name silent_us g other
      ]

  check-Changes :
      (subject : Subject) (c : Check D) (g : RunGuards)
      → Changes subject c g (check doubles cfg c g)
  unfolding check
  check-Changes subject (Check.disk_check free_gib) g = check_disk-Changes subject free_gib g
  check-Changes subject (Check.sensor_check name silent_us) g =
      check_sensor-Changes subject name silent_us g

  run_checks-is_warned :
      (subject : Subject) (cs : List (Check D)) (g : RunGuards)
      → some_well subject cs ≡ false
      → is_warned subject g ≡ true
      → is_warned subject (run_checks doubles cfg cs g) ≡ true
  unfolding run_checks
  run_checks-is_warned subject [] g h w = w
  run_checks-is_warned subject (c ∷ cs) g h w =
      let q = check doubles cfg c g in
      let k = check-Changes subject c g in
      run_checks-is_warned subject cs q.1 (ground (arith, h)) (k.keeps (ground (arith, h)) w)

  run_checks-others :
      (subject : Subject) (cs : List (Check D)) (g : RunGuards)
      → none_concerns subject cs ≡ true
      → is_warned subject (run_checks doubles cfg cs g) ≡ is_warned subject g
  unfolding run_checks
  run_checks-others subject [] g h = refl
  run_checks-others subject (c ∷ cs) g h =
      let q = check doubles cfg c g in
      let k = check-Changes subject c g in
      run_checks-others subject cs q.1 (ground (arith, h)) ∙ k.leaves (ground (arith, h))

-- After a warning about the disk or a sensor, whatever checks follow: where a later check of the same subject
-- warns again, one of the checks between the two has found that subject well.
pub check_warns_once :
    {D : Type 0} (doubles : Doubles D) (cfg : GuardConfig D) (subject : Subject)
    (first second : Check D) (between : List (Check D)) (g : RunGuards)
    → (concerns subject first && concerns subject second) ≡ true
    → (check doubles cfg first g).0.verdict ≡ Verdict.warn
    → (check doubles cfg second
        (run_checks doubles cfg between (check doubles cfg first g).1)).0.verdict
      ≡ Verdict.warn
    → some_well doubles cfg subject between ≡ true
check_warns_once doubles cfg subject first second between g both w v =
    let q = check doubles cfg first g in
    let r = run_checks doubles cfg between q.1 in
    let a = (check-Changes doubles cfg subject first g).warned (ground (arith, both)) w in
    let b = (check-Changes doubles cfg subject second r).warned (ground (arith, both)) v in
    elim (Bool-cases (some_well doubles cfg subject between)) [
      | inl well ↦ well
      | inr never ↦
          ground (arith, b, run_checks-is_warned doubles cfg subject between q.1 never a.1)
    ]

-- After a check that finds the disk or a sensor well, and then only checks of others, the next check of that
-- subject warns if it finds it low: no warning is lost to what was warned about before.
pub check_warns_again :
    {D : Type 0} (doubles : Doubles D) (cfg : GuardConfig D) (subject : Subject)
    (first second : Check D) (between : List (Check D)) (g : RunGuards)
    → (concerns subject first && is_well doubles cfg first) ≡ true
    → none_concerns subject between ≡ true
    → (concerns subject second && is_low doubles cfg second) ≡ true
    → (check doubles cfg second
        (run_checks doubles cfg between (check doubles cfg first g).1)).0.verdict
      ≡ Verdict.warn
check_warns_again doubles cfg subject first second between g well others low =
    let q = check doubles cfg first g in
    let r = run_checks doubles cfg between q.1 in
    let a = (check-Changes doubles cfg subject first g).rearms well in
    (check-Changes doubles cfg subject second r).warns (ground (arith, low))
      (ground (arith, low, a, run_checks-others doubles cfg subject between q.1 others))
