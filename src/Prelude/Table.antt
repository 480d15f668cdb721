-- ===== src/Prelude/Table.antt =====
-- Facts about small numbers, by computing a test of each of them.
use Prim.Native.Nat.{ℕ, zero, suc, ◌<◌}
use mathlib.Core.Path.{◌≡◌}
use mathlib.Core.Bool.{Bool, true, false}
use native.Mathlib.Omega.{arith}
use amiga_drivers.Prelude.Tests.{if◌then◌else◌}

-- A test of every number below a bound, computed.
unfoldable pub octets_pass : (ℕ → Bool) → ℕ → Bool
octets_pass test zero = true
octets_pass test (suc last) =
    let earlier = octets_pass test last in if test last then earlier else false

pub octet_passes :
    (test : ℕ → Bool) (count octet : ℕ)
    → octet < count
    → octets_pass test count ≡ true
    → test octet ≡ true
unfolding octets_pass
octet_passes test zero octet lt done = absurd (omega arith)
octet_passes test (suc last) octet lt done = ground (arith, octet_passes test last octet)
