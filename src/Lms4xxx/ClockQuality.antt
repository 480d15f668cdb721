-- ===== src/Lms4xxx/ClockQuality.antt =====
-- lms4xxx_driver/include/clock_quality.h: the device clock, judged scan by scan against its uptime.
-- An int64 of the source is an integer here: its sums stay far below 2^63 us, which is 292,000 years.
pub mod ClockFlag
pub mod Rollover
use amiga_drivers.Prelude.{
  ℕ, ◌+◌, ◌-◌, ◌*◌, ◌%◌, ◌^◌, bit_and, bit_or, Bool, true, false, not, ◌&&◌, ◌||◌, ltb, ◌==◌,
  if◌then◌else◌,
}
use ClockFlag
use amiga_drivers.Prelude.Int.{ℤ, pos, negsuc, pos_part, neg_part, ltb_ℤ, sub_ℕ, ◌-ℤ◌}

pub record ClockObservation : Type 0 where
  pub flags : ℕ
  pub step_us : ℤ
  pub utc_delta_us : ℤ
  pub uptime_delta_us : ℕ

-- `flags & mask`, as a condition.
abbrev pub flagged : ℕ → ℕ → Bool
flagged flags mask = not (bit_and flags mask == 0)

abbrev pub clock_step_log_threshold_us : ℕ
clock_step_log_threshold_us = 1000

abbrev pub utc_regression_anomaly_threshold_us : ℕ
utc_regression_anomaly_threshold_us = 1000

abbrev pub clock_step_anomaly_threshold_us : ℕ
clock_step_anomaly_threshold_us = 10000

-- -n
abbrev pub minus : ℕ → ℤ
minus n = sub_ℕ 0 n

-- The guard that both tests start with.
abbrev pub not_judged : ℕ → Bool
not_judged flags =
    not (flagged flags ClockFlag.assessed)
    || flagged flags
        (bit_or ClockFlag.first_sample (bit_or ClockFlag.invalid_timestamp ClockFlag.ntp_disabled))

unfoldable pub is_time_anomaly : ClockObservation → Bool
is_time_anomaly observation =
    if not_judged observation.flags
    then false
    else if ltb_ℤ observation.utc_delta_us (minus utc_regression_anomaly_threshold_us)
    then true
    else if flagged observation.flags ClockFlag.uptime_discontinuity
    then false
    else ltb_ℤ (pos clock_step_anomaly_threshold_us) observation.step_us
      || ltb_ℤ observation.step_us (minus clock_step_anomaly_threshold_us)

unfoldable pub should_log_clock_change : ClockObservation → Bool
should_log_clock_change observation =
    if not_judged observation.flags
    then false
    else if flagged observation.flags ClockFlag.backward_utc
    then true
    else if flagged observation.flags ClockFlag.uptime_discontinuity
    then false
    else not (ltb_ℤ observation.step_us (pos clock_step_log_threshold_us))
      || not (ltb_ℤ (minus clock_step_log_threshold_us) observation.step_us)

pub record ClockQualityTracker : Type 0 where
  pub previous_valid : Bool
  pub previous_utc : ℤ
  pub previous_uptime : ℕ

abbrev pub new_tracker : ClockQualityTracker
new_tracker = record { previous_valid = false; previous_utc = pos 0; previous_uptime = 0 }

-- The difference of two uint32.
abbrev pub sub_u32 : ℕ → ℕ → ℕ
sub_u32 a b = (a + 2 ^ 32 - b) % 2 ^ 32

abbrev pub magnitude : ℤ → ℕ
magnitude z = pos_part z + neg_part z

-- The flags of a scan that follows a valid one.
abbrev pub utc_flags : ℤ → ℕ → ℕ
utc_flags dt flags =
    let backward = if ltb_ℤ dt (pos 0) then bit_or flags ClockFlag.backward_utc else flags in
    if magnitude dt == 0 then bit_or backward ClockFlag.repeated_utc else backward

unfoldable pub compare_samples : ℕ → ℤ → ℕ → ℕ → ClockObservation
compare_samples flags dt du max_step_ms =
    let flags = utc_flags dt flags in
    if (du == 0) || ltb 2147483647 du
    then record {
      flags = bit_or flags ClockFlag.uptime_discontinuity;
      step_us = pos 0;
      utc_delta_us = dt;
      uptime_delta_us = du;
    }
    else record {
      flags =
          if ltb (max_step_ms * 1000) (magnitude (dt -ℤ pos du))
          then bit_or flags ClockFlag.step_exceeded
          else flags;
      step_us = dt -ℤ pos du;
      utc_delta_us = dt;
      uptime_delta_us = du;
    }

abbrev start_flags : ℕ
start_flags = bit_or ClockFlag.assessed ClockFlag.absolute_time_unverified

-- `Observe(utc, plausible, uptime, max_step_ms)`: the observation and the next state.
unfoldable pub observe :
    ClockQualityTracker → ℤ → Bool → ℕ → ℕ → ClockObservation × ClockQualityTracker
observe t utc false uptime max_step_ms = (
  record {
    flags = bit_or start_flags ClockFlag.invalid_timestamp;
    step_us = pos 0;
    utc_delta_us = pos 0;
    uptime_delta_us = 0;
  },
  record t { previous_valid = false },
)
observe t utc true uptime max_step_ms =
    let next : ClockQualityTracker = record {
      previous_valid = true;
      previous_utc = utc;
      previous_uptime = uptime;
    } in
    let first : ClockObservation = record {
      flags = bit_or start_flags ClockFlag.first_sample;
      step_us = pos 0;
      utc_delta_us = pos 0;
      uptime_delta_us = 0;
    } in
    (
      if not t.previous_valid
          then first
          else compare_samples start_flags (utc -ℤ t.previous_utc)
              (sub_u32 uptime t.previous_uptime) max_step_ms,
      next,
    )
