-- ===== src/Lms4xxx/RawRecorder/Tests.antt =====
-- The theorems on lms4xxx_driver/src/raw_recorder.cpp at concrete inputs.
use amiga_drivers.Prelude.{ℕ, ◌≡◌, refl, true, false, not, List, [], ◌∷◌, ◌==◌}
use amiga_drivers.Prelude.Int.{pos}
use amiga_drivers.Lms4xxx.RecordingStatus.{
  NtpStatus, Snapshot, data_error, time_error, writer_error, count_mismatch, fault_reason,
  earlier_failure, failed, assess_recording,
}
use amiga_drivers.Common.BoundedQueue.{try_push, try_pop, close}
use amiga_drivers.Lms4xxx.RawSplit.{
  RawRecord, Disk, RawRecorder, new_recorder, fail, access, write_metadata, write_bin, write_row,
  create_json, create_bin, create_csv, open_split, close_bin, close_csv, close_json,
  finalize_metadata, close_split,
}
use amiga_drivers.Lms4xxx.RawRecorder.{
  RecorderEvent, rotate, append_record, append, end_loop, write_next, flush, start, on_frame, stop,
  get_statistics, step, run,
}
use amiga_drivers.Lms4xxx.RawRecorder.Orderly.{Filed, run-Filed}
use amiga_drivers.Lms4xxx.RawRecorder.Whole.{frames_of}
use amiga_drivers.Lms4xxx.RawRecorder.Judged.{AllRecorded, assess_recording-AllRecorded}

abbrev frame : ℕ → RawRecord
frame b = record {
  bytes = b ∷ b ∷ b ∷ [];
  receive_timestamp_us = b;
  checksum_valid = true;
  is_scan = true;
  device_time_unix_us = pos 0;
  clock_step_us = pos 0;
  clock_quality_flags = 0;
}

-- The second frame does not fit into the first split.
abbrev events : List RecorderEvent
events =
    RecorderEvent.frame_event (frame 1)
    ∷ RecorderEvent.write_event
    ∷ RecorderEvent.frame_event (frame 2)
    ∷ RecorderEvent.flush_event
    ∷ RecorderEvent.write_event
    ∷ RecorderEvent.stop_event
    ∷ RecorderEvent.write_event
    ∷ []

abbrev good_disk : Disk
good_disk = record { succeeds = λ n. true; torn = λ n. 0 }

-- The write of the second telegram is torn.
abbrev bad_disk : Disk
bad_disk = record { succeeds = λ n. not (n == 31); torn = λ n. 2 }

run-Filed_example : Filed (run bad_disk events (start bad_disk (new_recorder 4 5)).1)
run-Filed_example = run-Filed bad_disk 4 5 events

abbrev snapshot : Snapshot
snapshot = record {
  frames_received = 2;
  frames_dropped = 0;
  crc_errors = 0;
  framing_errors = 0;
  parse_errors = 0;
  counter_gaps = 0;
  ntp_status = NtpStatus.off;
  clock_step_events = 0;
  device_no_ntp_events = 0;
  time_anomaly_events = 0;
}

abbrev last : RawRecorder
last = run good_disk events (start good_disk (new_recorder 4 5)).1

judged_good :
    (assess_recording snapshot (get_statistics last) false last.failed false).data_integrity_failed
    ≡ false
unfolding run step start on_frame write_next flush stop append rotate append_record open_split
    close_split finalize_metadata close_bin close_csv close_json create_json create_bin create_csv
    write_metadata write_bin write_row access fail end_loop get_statistics try_push try_pop close
    assess_recording data_error time_error writer_error count_mismatch fault_reason earlier_failure
    failed
judged_good = refl

assess_recording-AllRecorded_example : AllRecorded (frames_of events) last
assess_recording-AllRecorded_example =
    assess_recording-AllRecorded good_disk 4 5 events snapshot false false judged_good
