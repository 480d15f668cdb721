-- ===== src/Common/ByteUtil.antt =====
-- common/include/byte_util.h: integers as byte sequences. A byte is a number below 256, and `p` is
-- the bytes from the pointer on. The parts that the source joins by `|` share no bit, so `+` joins
-- them here.
pub mod RoundTrip
use amiga_drivers.Prelude.{ℕ, ◌+◌, ◌*◌, ◌/◌, ◌%◌, ◌^◌, ◌<◌, List, [], ◌∷◌, get_or, drop}

abbrev pub IsByte : ℕ → Type 0
IsByte b = b < 256

unfoldable pub load_big_u16 : List ℕ → ℕ
load_big_u16 p = get_or p 0 0 * 2 ^ 8 + get_or p 1 0

unfoldable pub load_big_u32 : List ℕ → ℕ
load_big_u32 p = get_or p 0 0 * 2 ^ 24 + get_or p 1 0 * 2 ^ 16 + get_or p 2 0 * 2 ^ 8 + get_or p 3 0

unfoldable pub load_little_u16 : List ℕ → ℕ
load_little_u16 p = get_or p 0 0 + get_or p 1 0 * 2 ^ 8

unfoldable pub load_little_u32 : List ℕ → ℕ
load_little_u32 p =
    get_or p 0 0 + get_or p 1 0 * 2 ^ 8 + get_or p 2 0 * 2 ^ 16 + get_or p 3 0 * 2 ^ 24

unfoldable pub load_little_u64 : List ℕ → ℕ
unfolding load_little_u32
load_little_u64 p = load_little_u32 p + load_little_u32 (drop 4 p) * 2 ^ 32

abbrev pub store_big_u16 : ℕ → List ℕ
store_big_u16 v = (v / 2 ^ 8 % 256) ∷ (v % 256) ∷ []

abbrev pub store_big_u32 : ℕ → List ℕ
store_big_u32 v = (v / 2 ^ 24 % 256) ∷ (v / 2 ^ 16 % 256) ∷ (v / 2 ^ 8 % 256) ∷ (v % 256) ∷ []
