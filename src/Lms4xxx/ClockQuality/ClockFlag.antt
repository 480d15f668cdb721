-- ===== src/Lms4xxx/ClockQuality/ClockFlag.antt =====
-- The flags of lms4xxx_driver/include/clock_quality.h.
use amiga_drivers.Prelude.{ℕ}

abbrev pub assessed : ℕ
assessed = 1

abbrev pub invalid_timestamp : ℕ
invalid_timestamp = 2

abbrev pub first_sample : ℕ
first_sample = 4

abbrev pub repeated_utc : ℕ
repeated_utc = 8

abbrev pub backward_utc : ℕ
backward_utc = 16

abbrev pub step_exceeded : ℕ
step_exceeded = 32

abbrev pub ntp_disabled : ℕ
ntp_disabled = 64

abbrev pub uptime_discontinuity : ℕ
uptime_discontinuity = 512

abbrev pub absolute_time_unverified : ℕ
absolute_time_unverified = 1024
