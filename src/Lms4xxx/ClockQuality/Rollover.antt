-- ===== src/Lms4xxx/ClockQuality/Rollover.antt =====
-- What `Observe` of lms4xxx_driver/include/clock_quality.h finds, over a rollover of the uptime too.
use amiga_drivers.Prelude.{
  subst, sym, ℕ, ◌+◌, ◌*◌, ◌%◌, ◌^◌, ◌≤◌, ◌<◌, ◌≡◌, Bool, true, false, ltb, arith,
}
use amiga_drivers.Prelude.Int.{ℤ, pos, ltb_ℤ, ◌-ℤ◌}
use amiga_drivers.Lms4xxx.ClockQuality.ClockFlag
use amiga_drivers.Lms4xxx.ClockQuality.{
  ClockObservation, ClockQualityTracker, flagged, is_time_anomaly, should_log_clock_change, sub_u32,
  magnitude, compare_samples, observe,
}

-- Whatever the tracker has seen: an observation that counts as a time anomaly is also one that is logged.
pub anomaly_logged :
    (t : ClockQualityTracker) (utc : ℤ) (plausible : Bool) (uptime max_step_ms : ℕ)
    → is_time_anomaly (observe t utc plausible uptime max_step_ms).0 ≡ true
    → should_log_clock_change (observe t utc plausible uptime max_step_ms).0 ≡ true
unfolding observe compare_samples is_time_anomaly should_log_clock_change ◌-ℤ◌
anomaly_logged t utc plausible uptime max_step_ms e = ground arith

-- The difference of two uptimes modulo 2^32 is the time between them, as long as that is below 2^32.
sub_u32_elapsed :
    (start elapsed : ℕ)
    → elapsed < 2 ^ 32
    → sub_u32 ((start + elapsed) % 2 ^ 32) (start % 2 ^ 32) ≡ elapsed
sub_u32_elapsed start elapsed h = omega arith

-- What a comparison with the scan before holds.
pub record Compared (o : ClockObservation) (dt : ℤ) (elapsed max_step_ms : ℕ) : Type 0 where
  pub step : o.step_us ≡ dt -ℤ pos elapsed
  pub elapsed_us : o.uptime_delta_us ≡ elapsed
  pub continuous : flagged o.flags ClockFlag.uptime_discontinuity ≡ false
  pub later : flagged o.flags ClockFlag.first_sample ≡ false
  pub exceeded :
      flagged o.flags ClockFlag.step_exceeded
      ≡ ltb (max_step_ms * 1000) (magnitude (dt -ℤ pos elapsed))
  pub backward : flagged o.flags ClockFlag.backward_utc ≡ ltb_ℤ dt (pos 0)

compared :
    (dt : ℤ) (elapsed max_step_ms : ℕ)
    → 0 < elapsed
    → elapsed ≤ 2147483647
    → Compared (compare_samples 1025 dt elapsed max_step_ms) dt elapsed max_step_ms
unfolding compare_samples
compared dt elapsed max_step_ms h k = record {
  step = ground arith;
  elapsed_us = ground arith;
  continuous = ground arith;
  later = ground arith;
  exceeded = ground arith;
  backward = ground arith;
}

-- Two plausible scans one after the other, the uptime counter started anywhere and read modulo 2^32:
-- if less than 2^31 us, and not none, have gone by between them, the step is the difference of the
-- UTC times less the time gone by. No discontinuity is reported, and the flags for a step above the
-- limit and for a UTC that runs backward say what they should.
pub observe-Compared :
    (t : ClockQualityTracker) (utc_1 utc_2 : ℤ) (start elapsed max_step_ms : ℕ)
    → 0 < elapsed
    → elapsed ≤ 2147483647
    → Compared
        (observe
          (observe t utc_1 true (start % 2 ^ 32) max_step_ms).1
          utc_2
          true
          ((start + elapsed) % 2 ^ 32)
          max_step_ms).0
        (utc_2 -ℤ utc_1)
        elapsed
        max_step_ms
unfolding observe
observe-Compared t utc_1 utc_2 start elapsed max_step_ms h k =
    subst
      (λ d.
        Compared (compare_samples 1025 (utc_2 -ℤ utc_1) d max_step_ms) (utc_2 -ℤ utc_1) elapsed
          max_step_ms)
      (sym (sub_u32_elapsed start elapsed (omega arith)))
      (compared (utc_2 -ℤ utc_1) elapsed max_step_ms h k)
