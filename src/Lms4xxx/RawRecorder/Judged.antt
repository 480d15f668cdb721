-- ===== src/Lms4xxx/RawRecorder/Judged.antt =====
-- What the verdict of lms4xxx_driver/include/recording_status.h says of the files of
-- lms4xxx_driver/src/raw_recorder.cpp.
use amiga_drivers.Prelude.{
  ℕ, ◌≡◌, refl, ap, Bool, false, List-cases, inl, inr, List, [], length-append, append-nil, length,
  arith,
}
use amiga_drivers.Lms4xxx.RawSplit.{RawRecord, Disk, RawRecorder, new_recorder}
use amiga_drivers.Lms4xxx.RawRecorder.{RecorderEvent, start, get_statistics, run}
use amiga_drivers.Lms4xxx.RecordingStatus.{Snapshot, assess_recording}
use amiga_drivers.Lms4xxx.RecordingStatus.Verdict.{data_bad, assess_recording-Verdict}
use amiga_drivers.Lms4xxx.RawRecorder.Complete.{recorded, stored, bytes_of}
use amiga_drivers.Lms4xxx.RawRecorder.Whole.{frames_of, Whole, Honest, start-Honest, run-Honest}

-- The files hold all of these frames, in this order, and nothing else.
pub record AllRecorded (fs : List RawRecord) (s : RawRecorder) : Type 0 where
  pub telegrams : recorded s ≡ fs
  pub bytes : stored s ≡ bytes_of fs

-- The counts leave no place for a frame that is not in the files.
Honest-AllRecorded :
    (fs : List RawRecord) (s : RawRecorder) (drv : Snapshot)
    → data_bad drv (get_statistics s) s.failed ≡ false
    → Honest fs s
    → AllRecorded fs s
unfolding get_statistics
Honest-AllRecorded fs s drv good h =
    let w : Whole fs s = h (ground (arith, good)) (ground (arith, good)) in
    let counts : length (recorded s) ≡ length fs = ground (arith, good, w.queued, w.written) in
    elim (List-cases s.queue.items) [
      | inl empty ↦ record {
        telegrams = ground (arith, w.frames, empty, append-nil (recorded s));
        bytes = ground (arith, w.bytes, w.frames, empty, append-nil (recorded s));
      }
      | inr more ↦ ground (
        arith,
        counts,
        w.frames,
        more.1.1,
        length-append (recorded s) s.queue.items,
        ap length w.frames,
      )
    ]

-- Where the verdict on the final counters does not mark the data, in a run with any events and faults of
-- the disk: the index of all splits together lists exactly the frames that were received, in their
-- order, and the files one after the other are exactly their bytes.
pub assess_recording-AllRecorded :
    (disk : Disk) (capacity limit : ℕ) (es : List RecorderEvent) (drv : Snapshot)
    (driver_fault already_failed : Bool)
    → let t = run disk es (start disk (new_recorder capacity limit)).1 in
      (assess_recording drv
          (get_statistics t)
          driver_fault
          t.failed
          already_failed).data_integrity_failed
        ≡ false
      → AllRecorded (frames_of es) t
unfolding get_statistics
assess_recording-AllRecorded disk capacity limit es drv driver_fault already_failed h =
    let s = new_recorder capacity limit in
    let t = run disk es (start disk s).1 in
    let v = assess_recording-Verdict drv (get_statistics t) driver_fault t.failed already_failed in
    let good = run-Honest disk es [] (start disk s).1 (start-Honest disk s refl refl refl refl) in
    Honest-AllRecorded (frames_of es) t drv (ground (arith, h, v.integrity)) good
