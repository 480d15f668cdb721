-- ===== src/Common/ByteUtil/RoundTrip.antt =====
-- What is stored is what is loaded, for every value that fits the width.
use amiga_drivers.Prelude.{ℕ, ◌^◌, ◌<◌, ◌≡◌, List, ◌++◌, All, arith}
use amiga_drivers.Common.ByteUtil.{IsByte, load_big_u16, load_big_u32, store_big_u16, store_big_u32}

pub load_big_u16-store_big_u16 :
    (v : ℕ) (rest : List ℕ) → v < 2 ^ 16 → load_big_u16 (store_big_u16 v ++ rest) ≡ v
unfolding load_big_u16
load_big_u16-store_big_u16 v rest h = omega arith

-- A uint32 that is stored is what is loaded, whatever bytes follow.
pub load_big_u32-store_big_u32 :
    (v : ℕ) (rest : List ℕ) → v < 2 ^ 32 → load_big_u32 (store_big_u32 v ++ rest) ≡ v
unfolding load_big_u32
load_big_u32-store_big_u32 v rest h = omega arith

pub store_big_u32-IsByte : (v : ℕ) → All IsByte (store_big_u32 v)
store_big_u32-IsByte v = omega arith
