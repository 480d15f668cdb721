-- ===== src/Lms4xxx/ScanDataParser/Monitor.antt =====
-- The monitor of lms4xxx_driver/src/scan_data_parser.cpp, `ParseTimestamp`, against the full `Parse`.
use amiga_drivers.Prelude.{
  ℕ, zero, suc, ◌+◌, ◌*◌, ◌≤◌, ◌≡◌, refl, sym, ap, subst, ◌∙◌, Bool, true, false, List, [], ◌∷◌,
  ◌++◌, length, drop, leb, ◌==◌, arith,
}
use amiga_drivers.Lms4xxx.ErrorCode.{frame_too_short}
use amiga_drivers.Lms4xxx.ScanData.{ScanData, empty_scan}
use amiga_drivers.Common.ByteUtil.{load_big_u16}
use amiga_drivers.Lms4xxx.ScanDataParser.{
  parse_device_info, parse_frequency, parse_encoder, parse_end, parse_channel16, parse_channel8,
  parse_channels16, parse_channels8, parse_channels16bit, parse_channels8bit, parse_position,
  parse_device_name, parse_timestamp, parse, monitor_header, monitor_encoders, monitor_tail,
  monitor_channel_loop, monitor_channels, peek_time_flag, parse_timestamp_only,
}
use amiga_drivers.Lms4xxx.ScanDataParser.Reader.{
  check, P, ok, and_then, and_then_ok, need, read_uint16,
}
use amiga_drivers.Lms4xxx.ScanDataParser.Layout.{
  SameTime, header_agrees, encoder_agrees, channel16_end, channel8_end, monitor_channel_end,
  position_end, name_agrees, time_block_agrees, end_agrees,
}

SameTime-refl : (a : ScanData) → SameTime a a
SameTime-refl a = ground arith

SameTime-trans : (a b c : ScanData) → SameTime a b → SameTime b c → SameTime a c
SameTime-trans a b c s t = record {
  telegram_counter = s.telegram_counter ∙ t.telegram_counter;
  scan_counter = s.scan_counter ∙ t.scan_counter;
  time_since_startup_us = s.time_since_startup_us ∙ t.time_since_startup_us;
  transmission_time_us = s.transmission_time_us ∙ t.transmission_time_us;
  has_timestamp = s.has_timestamp ∙ t.has_timestamp;
  timestamp = s.timestamp ∙ t.timestamp;
}

-- A check that a run has passed.
checked :
    {A : Type 0} (b : Bool) (f : P A) {a : A} {q : ℕ}
    → and_then (check b frame_too_short 0) (λ _. f) ≡ ok a q
    → f 0 ≡ ok a q
checked true f e = e
checked false f e = absurd (cc)

module _ (bytes : List ℕ) where
  -- What the loops over the channels have in common.
  record Passed (width left p q : ℕ) (a b : ScanData) : Type 0 where
    monitored : monitor_channel_loop bytes width left p ≡ ok tt q
    room : p + left * 21 ≤ q
    within : q ≤ length bytes
    same : SameTime a b

  channels16_agree :
      (left : ℕ) (a b : ScanData) (p q : ℕ)
      → p ≤ length bytes
      → parse_channels16 bytes left a p ≡ ok b q
      → Passed 2 left p q a b
  unfolding parse_channels16 monitor_channel_loop
  channels16_agree zero a b p q h e = ground arith
  channels16_agree (suc left) a b p q h e =
      let (c, r, x, y) = and_then_ok (parse_channel16 bytes p) _ e in
      let l = channel16_end bytes c p r x in
      let next : ScanData = record a { channels_16bit = a.channels_16bit ++ (c ∷ []) } in
      let rest = channels16_agree left next b r q l.1 y in
      let m = monitor_channel_end bytes 2 p (omega (arith, l)) in
      record {
        monitored = ground (arith, l, m, rest.monitored);
        room = omega (arith, l, rest.room);
        within = rest.within;
        same = record {
          telegram_counter = rest.same.telegram_counter;
          scan_counter = rest.same.scan_counter;
          time_since_startup_us = rest.same.time_since_startup_us;
          transmission_time_us = rest.same.transmission_time_us;
          has_timestamp = rest.same.has_timestamp;
          timestamp = rest.same.timestamp;
        };
      }

  channels16bit_agree :
      (a b : ScanData) (p q : ℕ)
      → parse_channels16bit bytes a p ≡ ok b q
      → (monitor_channels bytes 2 p ≡ ok tt q) × SameTime a b
  unfolding parse_channels16bit monitor_channels need read_uint16
  channels16bit_agree a b p q e =
      let n = load_big_u16 (drop p bytes) in ground (arith, channels16_agree n a b (p + 2) q)

  channels8_agree :
      (left : ℕ) (a b : ScanData) (p q : ℕ)
      → p ≤ length bytes
      → parse_channels8 bytes left a p ≡ ok b q
      → Passed 1 left p q a b
  unfolding parse_channels8 monitor_channel_loop
  channels8_agree zero a b p q h e = ground arith
  channels8_agree (suc left) a b p q h e =
      let (c, r, x, y) = and_then_ok (parse_channel8 bytes p) _ e in
      let l = channel8_end bytes c p r x in
      let next : ScanData = record a { channels_8bit = a.channels_8bit ++ (c ∷ []) } in
      let rest = channels8_agree left next b r q l.1 y in
      let m = monitor_channel_end bytes 1 p (omega (arith, l)) in
      record {
        monitored = ground (arith, l, m, rest.monitored);
        room = omega (arith, l, rest.room);
        within = rest.within;
        same = record {
          telegram_counter = rest.same.telegram_counter;
          scan_counter = rest.same.scan_counter;
          time_since_startup_us = rest.same.time_since_startup_us;
          transmission_time_us = rest.same.transmission_time_us;
          has_timestamp = rest.same.has_timestamp;
          timestamp = rest.same.timestamp;
        };
      }

  channels8bit_agree :
      (a b : ScanData) (p q : ℕ)
      → parse_channels8bit bytes a p ≡ ok b q
      → (monitor_channels bytes 1 p ≡ ok tt q) × SameTime a b
  unfolding parse_channels8bit monitor_channels need read_uint16
  channels8bit_agree a b p q e =
      let n = load_big_u16 (drop p bytes) in ground (arith, channels8_agree n a b (p + 2) q)

  timestamp_agrees :
      (a b m : ScanData) (p q : ℕ)
      → parse_timestamp bytes a p ≡ ok b q
      → SameTime m a
      → (n : ScanData) × (peek_time_flag bytes p ≡ ok tt p)
        × (parse_timestamp bytes m p ≡ ok n q)
        × SameTime n b
  unfolding parse_timestamp peek_time_flag need read_uint16
  timestamp_agrees a b m p q e s =
      let set = λ (c : ScanData). record c { has_timestamp = load_big_u16 (drop p bytes) == 1 } in
      let block = time_block_agrees bytes (set a) b (set m) (p + 2) q in
      (
        record m { has_timestamp = b.has_timestamp; timestamp = b.timestamp },
        ground arith,
        ground (arith, block),
        ground (arith, block),
      )

  -- The run of `Parse`, section by section.
  record Stages (out : ScanData) (q : ℕ) : Type 0 where
    a1 : ScanData
    p1 : ℕ
    device_info : parse_device_info bytes empty_scan 0 ≡ ok a1 p1
    a2 : ScanData
    p2 : ℕ
    frequency : parse_frequency bytes a1 p1 ≡ ok a2 p2
    a3 : ScanData
    p3 : ℕ
    encoder : parse_encoder bytes a2 p2 ≡ ok a3 p3
    a4 : ScanData
    p4 : ℕ
    channels16bit : parse_channels16bit bytes a3 p3 ≡ ok a4 p4
    a5 : ScanData
    p5 : ℕ
    channels8bit : parse_channels8bit bytes a4 p4 ≡ ok a5 p5
    a6 : ScanData
    p6 : ℕ
    position : parse_position bytes a5 p5 ≡ ok a6 p6
    a7 : ScanData
    p7 : ℕ
    device_name : parse_device_name bytes a6 p6 ≡ ok a7 p7
    a8 : ScanData
    p8 : ℕ
    timestamp : parse_timestamp bytes a7 p7 ≡ ok a8 p8
    rest : parse_end bytes a8 p8 ≡ ok out q

  stages : (out : ScanData) (q : ℕ) → parse bytes 0 ≡ ok out q → Stages out q
  unfolding parse
  stages out q e =
      let r0 = checked (leb 52 (length bytes)) _ e in
      let (a1, p1, e1, r1) = and_then_ok (parse_device_info bytes empty_scan 0) _ r0 in
      let (a2, p2, e2, r2) = and_then_ok (parse_frequency bytes a1 p1) _ r1 in
      let (a3, p3, e3, r3) = and_then_ok (parse_encoder bytes a2 p2) _ r2 in
      let (a4, p4, e4, r4) = and_then_ok (parse_channels16bit bytes a3 p3) _ r3 in
      let (a5, p5, e5, r5) = and_then_ok (parse_channels8bit bytes a4 p4) _ r4 in
      let (a6, p6, e6, r6) = and_then_ok (parse_position bytes a5 p5) _ r5 in
      let (a7, p7, e7, r7) = and_then_ok (parse_device_name bytes a6 p6) _ r6 in
      let (a8, p8, e8, r8) = and_then_ok (parse_timestamp bytes a7 p7) _ r7 in
      record {
        a1 = a1;
        p1 = p1;
        device_info = e1;
        a2 = a2;
        p2 = p2;
        frequency = e2;
        a3 = a3;
        p3 = p3;
        encoder = e3;
        a4 = a4;
        p4 = p4;
        channels16bit = e4;
        a5 = a5;
        p5 = p5;
        channels8bit = e5;
        a6 = a6;
        p6 = p6;
        position = e6;
        a7 = a7;
        p7 = p7;
        device_name = e7;
        a8 = a8;
        p8 = p8;
        timestamp = e8;
        rest = r8;
      }

  same_name :
      (a b : ScanData) (p k q : ℕ)
      → k ≡ p + 4
      → parse_device_name bytes a k ≡ ok b q
      → (monitor_tail bytes p ≡ ok tt q) × SameTime a b
  same_name a b p k q at e = name_agrees bytes a b p q (ap (parse_device_name bytes a) (sym at) ∙ e)

  -- The monitor's run, from what each of its sections does.
  monitored_run :
      (m n : ScanData) (p2 p3 p4 p5 p7 p8 q : ℕ)
      → monitor_header bytes empty_scan 0 ≡ ok m p2
      → monitor_encoders bytes p2 ≡ ok tt p3
      → monitor_channels bytes 2 p3 ≡ ok tt p4
      → monitor_channels bytes 1 p4 ≡ ok tt p5
      → monitor_tail bytes p5 ≡ ok tt p7
      → peek_time_flag bytes p7 ≡ ok tt p7
      → parse_timestamp bytes m p7 ≡ ok n p8
      → parse_end bytes n p8 ≡ ok n q
      → parse_timestamp_only bytes 0 ≡ ok n q
  unfolding parse_timestamp_only
  monitored_run m n p2 p3 p4 p5 p7 p8 q f1 f3 f4 f5 f7 f8 f9 f10 =
      rw (f1, f3, f4, f5, f7, f8, f9, f10)

-- A telegram that `Parse` accepts, the monitor accepts too, and passes over as many bytes. The two
-- counters, the two device clocks, the presence of a time stamp and the time stamp are the same.
pub parse_timestamp_only-parse :
    (bytes : List ℕ) (out : ScanData) (p : ℕ)
    → parse bytes 0 ≡ ok out p
    → (n : ScanData) × (parse_timestamp_only bytes 0 ≡ ok n p) × SameTime n out
parse_timestamp_only-parse bytes out p e =
    let s = stages bytes out p e in
    let (m, f1, s1) =
      header_agrees bytes empty_scan empty_scan s.a1 s.a2 0 s.p1 s.p2 s.device_info s.frequency refl
        refl in
    let (f3, s3) = encoder_agrees bytes s.a2 s.a3 s.p2 s.p3 s.encoder in
    let (f4, s4) = channels16bit_agree bytes s.a3 s.a4 s.p3 s.p4 s.channels16bit in
    let (f5, s5) = channels8bit_agree bytes s.a4 s.a5 s.p4 s.p5 s.channels8bit in
    let (at, s6) = position_end bytes s.a5 s.a6 s.p5 s.p6 s.position in
    let (f7, s7) = same_name bytes s.a6 s.a7 s.p5 s.p6 s.p7 at s.device_name in
    let t = SameTime-trans m s.a2 s.a7 s1 (
      SameTime-trans s.a2 s.a3 s.a7 s3 (
        SameTime-trans s.a3 s.a4 s.a7 s4
          (SameTime-trans s.a4 s.a5 s.a7 s5 (SameTime-trans s.a5 s.a6 s.a7 s6 s7)))) in
    let (n, f8, f9, s9) = timestamp_agrees bytes s.a7 s.a8 m s.p7 s.p8 s.timestamp t in
    let (same, f10) = end_agrees bytes s.a8 out n s.p8 p s.rest in
    (
      n,
      monitored_run bytes m n s.p2 s.p3 s.p4 s.p5 s.p7 s.p8 p f1 f3 f4 f5 f7 f8 f9 f10,
      subst (SameTime n) same s9,
    )
