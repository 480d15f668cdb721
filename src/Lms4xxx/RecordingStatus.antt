-- ===== src/Lms4xxx/RecordingStatus.antt =====
-- lms4xxx_driver/include/recording_status.h: the verdict on a recording, from the final counters.
-- Of the two snapshots, the fields that the verdict reads.
pub mod Verdict
use amiga_drivers.Prelude.{
  ℕ, Bool, true, false, not, ◌&&◌, ◌||◌, Option, none, some, List, [], ◌∷◌, ◌++◌, codes, to_string,
  ◌==◌, if◌then◌else◌,
}

-- `DriverStatistics::NtpStatus`.
pub data NtpStatus : Type 0 where
  off : NtpStatus
  unverified : NtpStatus
  no_timestamp : NtpStatus
  unreachable : NtpStatus
  not_locked : NtpStatus
  no_signal : NtpStatus
  stale : NtpStatus
  clock_anomaly : NtpStatus

pub record Snapshot : Type 0 where
  pub frames_received : ℕ
  pub frames_dropped : ℕ
  pub crc_errors : ℕ
  pub framing_errors : ℕ
  pub parse_errors : ℕ
  pub counter_gaps : ℕ
  pub ntp_status : NtpStatus
  pub clock_step_events : ℕ
  pub device_no_ntp_events : ℕ
  pub time_anomaly_events : ℕ

-- `RawRecorder::Statistics`.
pub record WriterStatistics : Type 0 where
  pub frames_queued : ℕ
  pub frames_written : ℕ
  pub frames_dropped : ℕ

unfoldable pub first_data_loss : Snapshot → WriterStatistics → Option (List ℕ)
first_data_loss drv wr =
    if not (drv.frames_dropped == 0)
    then some (codes "receive ring overflow")
    else if not (wr.frames_dropped == 0)
    then some (codes "writer rejected or dropped telegrams")
    else if not (drv.crc_errors == 0)
    then some (codes "frame checksum error")
    else if not (drv.framing_errors == 0)
    then some (codes "framing error")
    else if not (drv.parse_errors == 0)
    then some (codes "parse error")
    else none

pub record RecordingStatus : Type 0 where
  pub data_integrity_failed : Bool
  pub time_quality_degraded : Bool
  pub failure_reasons : List (List ℕ)

-- `!reasons.empty()`
abbrev pub nonempty : List (List ℕ) → Bool
nonempty [] = false
nonempty (r ∷ rs) = true

unfoldable pub failed : RecordingStatus → Bool
failed r = nonempty r.failure_reasons

-- `failure_reasons.emplace_back(reason)`.
abbrev pub add_reason : List ℕ → RecordingStatus → RecordingStatus
add_reason reason r = record r { failure_reasons = r.failure_reasons ++ (reason ∷ []) }

unfoldable pub data_error : List ℕ → ℕ → RecordingStatus → RecordingStatus
data_error name count r = if count == 0 then r else record r {
  data_integrity_failed = true;
  failure_reasons = r.failure_reasons ++ ((name ++ codes "=" ++ to_string count) ∷ []);
}

unfoldable pub time_error : List ℕ → ℕ → RecordingStatus → RecordingStatus
time_error name count r = if count == 0 then r else record r {
  time_quality_degraded = true;
  failure_reasons = r.failure_reasons ++ ((name ++ codes "=" ++ to_string count) ∷ []);
}

unfoldable pub writer_error : Bool → RecordingStatus → RecordingStatus
writer_error false r = r
writer_error true r = record r {
  data_integrity_failed = true;
  failure_reasons = r.failure_reasons ++ (codes "writer failure (see RawRecorder error)" ∷ []);
}

unfoldable pub count_mismatch : ℕ → ℕ → ℕ → RecordingStatus → RecordingStatus
count_mismatch received queued written r =
    if not (received == queued) || not (queued == written)
    then record r {
      data_integrity_failed = true;
      failure_reasons =
          r.failure_reasons
          ++ ((codes "telegram recording count mismatch: received="
                ++ to_string received
                ++ codes " queued="
                ++ to_string queued
                ++ codes " written="
                ++ to_string written)
              ∷ []);
    }
    else r

unfoldable pub fault_reason : Bool → RecordingStatus → RecordingStatus
fault_reason driver_fault r =
    if driver_fault then add_reason (codes "driver fault (see preceding driver error)") r else r

unfoldable pub earlier_failure : Bool → RecordingStatus → RecordingStatus
unfolding failed
earlier_failure already_failed r =
    if already_failed && not (failed r)
    then add_reason (codes "earlier run/shutdown failure (see preceding error)") r
    else r

abbrev pub clock_is_bad : NtpStatus → Bool
clock_is_bad NtpStatus.no_timestamp = true
clock_is_bad NtpStatus.not_locked = true
clock_is_bad NtpStatus.no_signal = true
clock_is_bad NtpStatus.unreachable = true
clock_is_bad NtpStatus.clock_anomaly = true
clock_is_bad _ = false

-- `AssessRecording(drv, wr, driver_fault, writer_failed, already_failed)`.
unfoldable pub assess_recording : Snapshot → WriterStatistics → Bool → Bool → Bool → RecordingStatus
assess_recording drv wr driver_fault writer_failed already_failed =
    let start : RecordingStatus = record {
      data_integrity_failed = false;
      time_quality_degraded = clock_is_bad drv.ntp_status;
      failure_reasons = [];
    } in
    let r = data_error (codes "dropped_ring") drv.frames_dropped start in
    let r = data_error (codes "dropped_writer") wr.frames_dropped r in
    let r = data_error (codes "counter_gaps") drv.counter_gaps r in
    let r = data_error (codes "crc_errors") drv.crc_errors r in
    let r = data_error (codes "framing_errors") drv.framing_errors r in
    let r = data_error (codes "parse_errors") drv.parse_errors r in
    let r = writer_error writer_failed r in
    let r = count_mismatch drv.frames_received wr.frames_queued wr.frames_written r in
    let r =
      time_error (codes "device reported No NTP signal: ntp_device_loss") drv.device_no_ntp_events
        r in
    let r =
      time_error (codes "device time anomaly: time_anomaly_events") drv.time_anomaly_events r in
    let r =
      time_error (codes "device clock discontinuity: clock_step_events") drv.clock_step_events r in
    let r = fault_reason driver_fault r in earlier_failure already_failed r
