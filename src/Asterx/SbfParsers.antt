-- ===== src/Asterx/SbfParsers.antt =====
-- asterx_driver/src/sbf_parsers.cpp: the parsers of SBF blocks. `memory` is the bytes from the pointer on.
-- A read outside of it is `stray`; a parser that returns false is `refused`, whatever it has written.
pub mod Local
pub mod Padding
pub mod Status
mod Tests
use amiga_drivers.Prelude.{
  ℕ, zero, suc, ◌+◌, ◌-◌, ◌*◌, ◌/◌, ◌%◌, ◌^◌, Bool, true, false, not, ◌&&◌, ◌||◌, List, [], ◌∷◌,
  length, get_or, drop, ltb, leb, ◌==◌, if◌then◌else◌,
}
use amiga_drivers.Prelude.Int.{ℤ, pos, negsuc}
use amiga_drivers.Common.ByteUtil.{load_little_u16, load_little_u32, load_little_u64}
use amiga_drivers.Asterx.SbfTypes.{
  BlockHeader, Group, no_group, InsNavGeod, AgcState, ReceiverStatus, id_receiver_status,
  id_ins_nav_geod, id_ext_event_ins_nav_geod, dnu_to_nan_float, dnu_to_nan_double,
}

pub record Reader : Type 0 where
  pub size : ℕ
  pub pos : ℕ
  pub ok : Bool

pub data Got (A : Type 0) : Type 0 where
  got : A → Reader → Got A
  refused : Got A
  stray : Got A

abbrev pub Read : Type 0 → Type 0
Read A = Reader → Got A

abbrev pub pure : {A : Type 0} → A → Read A
pure a r = got a r

-- `return false`
abbrev pub refuse : {A : Type 0} → Read A
refuse r = refused

abbrev pub and_then : {A B : Type 0} → Got A → (A → Read B) → Got B
and_then (got a r) f = f a r
and_then refused f = refused
and_then stray f = stray

infixl 5 ◌>>=◌ ◌>>◌
abbrev pub ◌>>=◌ : {A B : Type 0} → Read A → (A → Read B) → Read B
◌>>=◌ m f r = and_then (m r) f

abbrev pub ◌>>◌ : {B : Type 0} → Read (Unit {0}) → Read B → Read B
m >> k = m >>= λ _. k

-- `if (!b) return false;`
abbrev pub check : Bool → Read (Unit {0})
check b = if b then pure tt else refuse

-- `if (!r.ok) return false;`
abbrev pub check_ok : Read (Unit {0})
check_ok r = if r.ok then got tt r else refused

-- An int8 from its bit pattern.
abbrev pub int8_of : ℕ → ℤ
int8_of w = if ltb w 128 then pos w else negsuc (2 ^ 8 - w - 1)

-- Whether the bit with this value is set.
abbrev pub has_bit : ℕ → ℕ → Bool
has_bit bits b = bits / b % 2 == 1

-- `size - pos` of two `std::size_t`: behind the end it wraps around.
abbrev pub remaining : Reader → ℕ
remaining r = if leb r.pos r.size then r.size - r.pos else 2 ^ 64 + r.size - r.pos

-- `Need(n)`, before it lets the flag fall.
abbrev pub need : ℕ → Reader → Bool
need k r = r.ok && leb k (remaining r)

module _ (memory : List ℕ) where
  -- A read of k bytes: 0 where they are not there, and the flag falls.
  unfoldable pub load : ℕ → (List ℕ → ℕ) → Read ℕ
  load k value r =
      if need k r
      then (if leb (r.pos + k) (length memory)
          then got (value (drop r.pos memory)) (record r { pos = r.pos + k })
          else stray)
      else got 0 (record r { ok = false })

  abbrev pub u8 : Read ℕ
  u8 = load 1 (λ p. get_or p 0 0)

  abbrev pub i8 : Read ℤ
  i8 = u8 >>= λ v. pure (int8_of v)

  abbrev pub u16 : Read ℕ
  u16 = load 2 load_little_u16

  abbrev pub u32 : Read ℕ
  u32 = load 4 load_little_u32

  abbrev pub u64 : Read ℕ
  u64 = load 8 load_little_u64

  abbrev pub f32 : Read ℕ
  f32 = u32 >>= λ v. pure (dnu_to_nan_float v)

  abbrev pub f64 : Read ℕ
  f64 = u64 >>= λ v. pure (dnu_to_nan_double v)

  -- Reads no byte.
  unfoldable pub skip : ℕ → Read (Unit {0})
  skip k r =
      if need k r then got tt (record r { pos = r.pos + k }) else got tt (record r { ok = false })

  unfoldable pub read_header : Read BlockHeader
  read_header = do
    sync_1 ← u8
    check (sync_1 == 36)
    sync_2 ← u8
    check (sync_2 == 64)
    crc ← u16
    raw ← u16
    len ← u16
    tow ← u32
    wnc ← u16
    check_ok
    pure (record {
      sync_1 = sync_1;
      sync_2 = sync_2;
      crc = crc;
      id = raw % 2 ^ 13;
      revision = raw / 2 ^ 13;
      length = len;
      tow = tow;
      wnc = wnc;
    })

  -- The frame ends where its header says.
  abbrev pub declare_size : BlockHeader → Read BlockHeader
  declare_size h r =
      if ltb h.length 14 || ltb r.size h.length
      then refused
      else got h (record r { size = h.length })

  unfoldable pub read_frame_header : Read BlockHeader
  read_frame_header = read_header >>= declare_size

  unfoldable pub read_group : Read Group
  read_group = do
    first ← f32
    second ← f32
    third ← f32
    pure (record { first = first; second = second; third = third })

  abbrev pub optional_group : Bool → Read Group
  optional_group present = if present then read_group else pure no_group

  unfoldable pub read_ins_nav_geod_body : BlockHeader → Read InsNavGeod
  read_ins_nav_geod_body header = do
    check ((header.id == id_ins_nav_geod) || (header.id == id_ext_event_ins_nav_geod))
    gnss_mode ← u8
    error ← u8
    info ← u16
    gnss_age ← u16
    latitude ← f64
    longitude ← f64
    height ← f64
    undulation ← f32
    accuracy ← u16
    latency ← u16
    datum ← u8
    skip 1
    sb_list ← u16
    position_std_dev ← optional_group (has_bit sb_list 1)
    attitude ← optional_group (has_bit sb_list 2)
    attitude_std_dev ← optional_group (has_bit sb_list 4)
    velocity ← optional_group (has_bit sb_list 8)
    velocity_std_dev ← optional_group (has_bit sb_list 16)
    position_cov ← optional_group (has_bit sb_list 32)
    attitude_cov ← optional_group (has_bit sb_list 64)
    velocity_cov ← optional_group (has_bit sb_list 128)
    check_ok
    pure (record {
      block_header = header;
      gnss_mode = gnss_mode;
      error = error;
      info = info;
      gnss_age = gnss_age;
      latitude = latitude;
      longitude = longitude;
      height = height;
      undulation = undulation;
      accuracy = accuracy;
      latency = latency;
      datum = datum;
      sb_list = sb_list;
      position_std_dev = position_std_dev;
      attitude = attitude;
      attitude_std_dev = attitude_std_dev;
      velocity = velocity;
      velocity_std_dev = velocity_std_dev;
      position_cov = position_cov;
      attitude_cov = attitude_cov;
      velocity_cov = velocity_cov;
    })

  -- A sub-block with the bytes that pad it.
  unfoldable pub read_agc_state : ℕ → Read AgcState
  read_agc_state padding = do
    frontend_id ← u8
    gain ← i8
    sample_var ← u8
    blanking_stat ← u8
    skip padding
    pure (record {
      frontend_id = frontend_id;
      gain = gain;
      sample_var = sample_var;
      blanking_stat = blanking_stat;
    })

  unfoldable pub read_agc_states : ℕ → ℕ → Read (List AgcState)
  read_agc_states zero padding = pure []
  read_agc_states (suc left) padding = do
    agc ← read_agc_state padding
    rest ← read_agc_states left padding
    pure (agc ∷ rest)

  unfoldable pub read_receiver_status_body : BlockHeader → Read ReceiverStatus
  read_receiver_status_body header = do
    check (header.id == id_receiver_status)
    cpu_load ← u8
    ext_error ← u8
    up_time ← u32
    rx_status ← u32
    rx_error ← u32
    n ← u8
    sb_length ← u8
    cmd_count ← u8
    temperature ← u8
    check_ok
    check (not (ltb 0 n && ltb sb_length 4))
    agc_state ← read_agc_states n (sb_length - 4)
    check_ok
    pure (record {
      block_header = header;
      cpu_load = cpu_load;
      ext_error = ext_error;
      up_time = up_time;
      rx_status = rx_status;
      rx_error = rx_error;
      n = n;
      sb_length = sb_length;
      cmd_count = cmd_count;
      temperature = temperature;
      agc_state = agc_state;
    })

-- A new `Reader` at the start of a buffer.
abbrev pub at_start : ℕ → Reader
at_start size = record { size = size; pos = 0; ok = true }

unfoldable pub peek_id : List ℕ → ℕ → ℕ
peek_id data_ size = if ltb size 6 then 0 else load_little_u16 (drop 4 data_) % 2 ^ 13

unfoldable pub parse_block_header : List ℕ → ℕ → Got BlockHeader
parse_block_header data_ size = read_header data_ (at_start size)

unfoldable pub parse_ins_nav_geod : List ℕ → ℕ → Got InsNavGeod
parse_ins_nav_geod data_ size =
    (read_frame_header data_ >>= read_ins_nav_geod_body data_) (at_start size)

unfoldable pub parse_receiver_status : List ℕ → ℕ → Got ReceiverStatus
parse_receiver_status data_ size =
    (read_frame_header data_ >>= read_receiver_status_body data_) (at_start size)
