-- ===== src/Lms4xxx/RecordingStatus/Verdict.antt =====
-- The verdict of lms4xxx_driver/include/recording_status.h: when a recording fails, and for what.
use amiga_drivers.Prelude.{
  ℕ, ◌≡◌, refl, Bool, true, false, not, ◌||◌, some, List, [], ◌∷◌, ◌++◌, ◌==◌, arith, ◌∙◌,
}
use amiga_drivers.Lms4xxx.RecordingStatus.{
  Snapshot, WriterStatistics, RecordingStatus, nonempty, first_data_loss, failed, data_error,
  time_error, writer_error, count_mismatch, fault_reason, earlier_failure, assess_recording,
}

nonempty_snoc : (xs : List (List ℕ)) (x : List ℕ) → nonempty (xs ++ (x ∷ [])) ≡ true
nonempty_snoc [] x = refl
nonempty_snoc (y ∷ ys) x = refl

-- A step that adds a reason on the condition `b`, and marks the data on the condition `c`.
record Marks (b c : Bool) (r s : RecordingStatus) : Type 0 where
  reported : failed s ≡ (failed r || b)
  marked : s.data_integrity_failed ≡ (r.data_integrity_failed || c)

data_error-Marks :
    (name : List ℕ) (n : ℕ) (r : RecordingStatus)
    → Marks (not (n == 0)) (not (n == 0)) r (data_error name n r)
unfolding data_error failed
data_error-Marks name n r = record {
  reported = grind (arith, nonempty_snoc);
  marked = ground arith;
}

time_error-Marks :
    (name : List ℕ) (n : ℕ) (r : RecordingStatus)
    → Marks (not (n == 0)) false r (time_error name n r)
unfolding time_error failed
time_error-Marks name n r = record {
  reported = grind (arith, nonempty_snoc);
  marked = ground arith;
}

writer_error-Marks : (b : Bool) (r : RecordingStatus) → Marks b b r (writer_error b r)
unfolding writer_error failed
writer_error-Marks b r = record { reported = grind (arith, nonempty_snoc); marked = ground arith }

-- The counts of a complete recording.
abbrev miscounted : ℕ → ℕ → ℕ → Bool
miscounted received queued written = not (received == queued) || not (queued == written)

count_mismatch-Marks :
    (received queued written : ℕ) (r : RecordingStatus)
    → Marks
        (miscounted received queued written)
        (miscounted received queued written)
        r
        (count_mismatch received queued written r)
unfolding count_mismatch failed
count_mismatch-Marks received queued written r = record {
  reported = grind (arith, nonempty_snoc);
  marked = ground arith;
}

fault_reason-Marks : (b : Bool) (r : RecordingStatus) → Marks b false r (fault_reason b r)
unfolding fault_reason failed
fault_reason-Marks b r = record { reported = grind (arith, nonempty_snoc); marked = ground arith }

earlier_failure-Marks : (b : Bool) (r : RecordingStatus) → Marks b false r (earlier_failure b r)
unfolding earlier_failure failed
earlier_failure-Marks b r = record {
  reported = grind (arith, nonempty_snoc);
  marked = ground arith;
}

infixl 5 ◌|>◌ ◌|>>◌
◌|>◌ :
    {b c b2 c2 : Bool} {r s t : RecordingStatus}
    → Marks b c r s
    → Marks b2 c2 s t
    → Marks (b || b2) (c || c2) r t
m |> n = record { reported = ground (arith, m, n); marked = ground (arith, m, n) }

◌|>>◌ :
    {b c b2 : Bool} {r s t : RecordingStatus}
    → Marks b c r s
    → Marks b2 false s t
    → Marks (b || b2) c r t
m |>> n = record { reported = ground (arith, m, n); marked = ground (arith, m, n) }

-- Something is wrong with the recorded data.
abbrev pub data_bad : Snapshot → WriterStatistics → Bool → Bool
data_bad drv wr writer_failed =
    ((((((not (drv.frames_dropped == 0) || not (wr.frames_dropped == 0))
              || not (drv.counter_gaps == 0))
            || not (drv.crc_errors == 0))
          || not (drv.framing_errors == 0))
        || not (drv.parse_errors == 0))
      || writer_failed)
    || miscounted drv.frames_received wr.frames_queued wr.frames_written

-- Or the device's clock had an event, the driver had a fault, or the run had failed before.
abbrev pub run_bad : Snapshot → WriterStatistics → Bool → Bool → Bool → Bool
run_bad drv wr driver_fault writer_failed already_failed =
    ((((data_bad drv wr writer_failed || not (drv.device_no_ntp_events == 0))
          || not (drv.time_anomaly_events == 0))
        || not (drv.clock_step_events == 0))
      || driver_fault)
    || already_failed

pub record Verdict (drv : Snapshot) (wr : WriterStatistics)
    (driver_fault writer_failed already_failed : Bool) (r : RecordingStatus) : Type 0 where
  pub integrity : r.data_integrity_failed ≡ data_bad drv wr writer_failed
  pub verdict : failed r ≡ run_bad drv wr driver_fault writer_failed already_failed

-- The data's integrity has failed exactly if telegrams were lost, damaged or miscounted or the writer
-- failed. The recording has failed exactly if it has, or a clock event was counted, or the driver had a
-- fault, or the run had failed before.
pub assess_recording-Verdict :
    (drv : Snapshot) (wr : WriterStatistics) (driver_fault writer_failed already_failed : Bool)
    → Verdict drv wr driver_fault writer_failed already_failed
        (assess_recording drv wr driver_fault writer_failed already_failed)
unfolding assess_recording failed
assess_recording-Verdict drv wr driver_fault writer_failed already_failed =
    let steps =
      data_error-Marks _ drv.frames_dropped _
      |> data_error-Marks _ wr.frames_dropped _
      |> data_error-Marks _ drv.counter_gaps _
      |> data_error-Marks _ drv.crc_errors _
      |> data_error-Marks _ drv.framing_errors _
      |> data_error-Marks _ drv.parse_errors _
      |> writer_error-Marks writer_failed _
      |> count_mismatch-Marks _ _ _ _
      |>> time_error-Marks _ drv.device_no_ntp_events _
      |>> time_error-Marks _ drv.time_anomaly_events _
      |>> time_error-Marks _ drv.clock_step_events _
      |>> fault_reason-Marks driver_fault _
      |>> earlier_failure-Marks already_failed _ in
    record { integrity = steps.marked; verdict = steps.reported }

-- A data loss that the running check reports makes the final verdict a failure of the data's integrity.
pub first_data_loss-integrity :
    (drv : Snapshot) (wr : WriterStatistics) (driver_fault writer_failed already_failed : Bool)
    (reason : List ℕ)
    → first_data_loss drv wr ≡ some reason
    → (assess_recording drv wr driver_fault writer_failed already_failed).data_integrity_failed
      ≡ true
unfolding first_data_loss
first_data_loss-integrity drv wr driver_fault writer_failed already_failed reason e =
    let v = assess_recording-Verdict drv wr driver_fault writer_failed already_failed in
    v.integrity ∙ ground arith
