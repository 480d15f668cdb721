-- ===== src/Asterx/SbfTypes.antt =====
-- asterx_driver/include/sbf_types.h: the blocks that the driver interprets. A floating-point number is its
-- bit pattern.
use amiga_drivers.Prelude.{ℕ, ◌==◌, if◌then◌else◌, List}
use amiga_drivers.Prelude.Int.{ℤ}

abbrev pub id_receiver_status : ℕ
id_receiver_status = 4014

abbrev pub id_ins_nav_geod : ℕ
id_ins_nav_geod = 4226

abbrev pub id_ext_event_ins_nav_geod : ℕ
id_ext_event_ins_nav_geod = 4230

-- The patterns of -2e10 and of a quiet NaN. No other pattern compares equal to -2e10.
abbrev pub dnu_float : ℕ
dnu_float = 3499426553

abbrev pub dnu_double : ℕ
dnu_double = 13984416123358019584

abbrev pub nan_float : ℕ
nan_float = 2143289344

abbrev pub nan_double : ℕ
nan_double = 9221120237041090560

-- `DnuToNan(float)` and `DnuToNan(double)`.
unfoldable pub dnu_to_nan_float : ℕ → ℕ
dnu_to_nan_float v = if v == dnu_float then nan_float else v

unfoldable pub dnu_to_nan_double : ℕ → ℕ
dnu_to_nan_double v = if v == dnu_double then nan_double else v

pub record BlockHeader : Type 0 where
  pub sync_1 : ℕ
  pub sync_2 : ℕ
  pub crc : ℕ
  pub id : ℕ
  pub revision : ℕ
  pub length : ℕ
  pub tow : ℕ
  pub wnc : ℕ

-- Three numbers that an optional group of `INSNavGeod` holds.
pub record Group : Type 0 where
  pub first : ℕ
  pub second : ℕ
  pub third : ℕ

abbrev pub no_group : Group
no_group = record { first = nan_float; second = nan_float; third = nan_float }

-- The fields of an optional group stand together: `position_std_dev` is latitude, longitude and height.
pub record InsNavGeod : Type 0 where
  pub block_header : BlockHeader
  pub gnss_mode : ℕ
  pub error : ℕ
  pub info : ℕ
  pub gnss_age : ℕ
  pub latitude : ℕ
  pub longitude : ℕ
  pub height : ℕ
  pub undulation : ℕ
  pub accuracy : ℕ
  pub latency : ℕ
  pub datum : ℕ
  pub sb_list : ℕ
  pub position_std_dev : Group
  pub attitude : Group
  pub attitude_std_dev : Group
  pub velocity : Group
  pub velocity_std_dev : Group
  pub position_cov : Group
  pub attitude_cov : Group
  pub velocity_cov : Group

pub record AgcState : Type 0 where
  pub frontend_id : ℕ
  pub gain : ℤ
  pub sample_var : ℕ
  pub blanking_stat : ℕ

pub record ReceiverStatus : Type 0 where
  pub block_header : BlockHeader
  pub cpu_load : ℕ
  pub ext_error : ℕ
  pub up_time : ℕ
  pub rx_status : ℕ
  pub rx_error : ℕ
  pub n : ℕ
  pub sb_length : ℕ
  pub cmd_count : ℕ
  pub temperature : ℕ
  pub agc_state : List AgcState
