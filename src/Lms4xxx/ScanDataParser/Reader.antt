-- ===== src/Lms4xxx/ScanDataParser/Reader.antt =====
-- `ScanDataParser::Reader` of lms4xxx_driver: sequential reads at a position in a byte sequence.
-- A read that is not covered by the bytes is undefined in the source: here it is a `fault`.
use amiga_drivers.Prelude.{
  ℕ, ◌+◌, ◌-◌, ◌^◌, ◌≡◌, refl, Bool, ◌&&◌, List, length, get_or, take, drop, ltb, leb,
  if◌then◌else◌,
}
use amiga_drivers.Prelude.Int.{ℤ, pos, negsuc}
use amiga_drivers.Common.ByteUtil.{load_big_u16, load_big_u32}
use amiga_drivers.Lms4xxx.ErrorCode.{ErrorCode, frame_too_short}

-- The value with the new position, an error, or a read out of range.
pub data Parsed {ℓ} (A : Type ℓ) : Type ℓ where
  ok : A → ℕ → Parsed A
  err : ErrorCode → Parsed A
  fault : Parsed A

abbrev pub P : Type 0 → Type 0
P A = ℕ → Parsed A

abbrev pub pure : {A : Type 0} → A → P A
pure a p = ok a p

abbrev pub fail : {A : Type 0} → ErrorCode → P A
fail e p = err e

abbrev pub and_then : {A B : Type 0} → Parsed A → (A → P B) → Parsed B
and_then (ok a q) f = f a q
and_then (err e) f = err e
and_then fault f = fault

infixl 5 ◌>>=◌ ◌>>◌
abbrev pub ◌>>=◌ : {A B : Type 0} → P A → (A → P B) → P B
◌>>=◌ m f p = and_then (m p) f

abbrev pub ◌>>◌ : {B : Type 0} → P (Unit {0}) → P B → P B
m >> k = m >>= λ _. k

-- `if (!ok) return error;`
abbrev pub check : Bool → ErrorCode → P (Unit {0})
check b e = if b then pure tt else fail e

-- An int32 from its bit pattern.
abbrev pub int32_of : ℕ → ℤ
int32_of w = if ltb w (2 ^ 31) then pos w else negsuc (2 ^ 32 - w - 1)

abbrev pub has : ℕ → ℕ → ℕ → Bool
has len p n = leb p len && leb n (len - p)

module _ (bytes : List ℕ) where
  unfoldable pub has_bytes : ℕ → ℕ → Bool
  has_bytes p n = has (length bytes) p n

  abbrev pub remaining : ℕ → ℕ
  remaining p = length bytes - p

  -- `if (!r.HasBytes(n)) return kFrameTooShort;`
  unfoldable pub need : ℕ → P (Unit {0})
  unfolding has_bytes
  need n p = if has_bytes p n then ok tt p else err frame_too_short

  unfoldable pub read_uint8 : P ℕ
  unfolding has_bytes
  read_uint8 p = if has_bytes p 1 then ok (get_or bytes p 0) (p + 1) else fault

  unfoldable pub read_uint16 : P ℕ
  unfolding has_bytes
  read_uint16 p = if has_bytes p 2 then ok (load_big_u16 (drop p bytes)) (p + 2) else fault

  unfoldable pub read_uint32 : P ℕ
  unfolding has_bytes
  read_uint32 p = if has_bytes p 4 then ok (load_big_u32 (drop p bytes)) (p + 4) else fault

  unfoldable pub read_int32 : P ℤ
  unfolding has_bytes
  read_int32 p =
      if has_bytes p 4 then ok (int32_of (load_big_u32 (drop p bytes))) (p + 4) else fault

  -- The bit pattern of the float.
  unfoldable pub read_float : P ℕ
  unfolding has_bytes
  read_float p = if has_bytes p 4 then ok (load_big_u32 (drop p bytes)) (p + 4) else fault

  unfoldable pub read_string : ℕ → P (List ℕ)
  unfolding has_bytes
  read_string n p = if has_bytes p n then ok (take n (drop p bytes)) (p + n) else fault

  -- Moving on reads nothing, and may end anywhere; a position behind the end is a fault all the same.
  unfoldable pub skip : ℕ → P (Unit {0})
  unfolding has_bytes
  skip n p = if has_bytes p n then ok tt (p + n) else fault

-- A sequence that succeeds has two parts that succeed.
pub and_then_ok :
    {A B : Type 0} (m : Parsed A) (f : A → P B) {b : B} {q : ℕ}
    → and_then m f ≡ ok b q
    → (a : A) × (p : ℕ) × (m ≡ ok a p) × (f a p ≡ ok b q)
and_then_ok (ok a p) f e = (a, p, refl, e)
and_then_ok (err x) f e = absurd (cc)
and_then_ok fault f e = absurd (cc)
