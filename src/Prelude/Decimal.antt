-- ===== src/Prelude/Decimal.antt =====
-- `std::to_string` and `%u` on an unsigned number: its decimal digits, as bytes.
use Prim.Native.Nat.{ℕ, zero, suc, ◌+◌, ◌/◌, ◌%◌}
use mathlib.Core.List.{List, [], ◌∷◌, ◌++◌}
use amiga_drivers.Prelude.Tests.{ltb, if◌then◌else◌}

-- On fuel: one unit for a digit.
abbrev pub digits : ℕ → ℕ → List ℕ
digits zero n = []
digits (suc fuel) n =
    let rest = digits fuel (n / 10) in
    if ltb n 10 then (48 + n) ∷ [] else rest ++ ((48 + n % 10) ∷ [])

-- A uint64 has at most 20 digits.
abbrev pub to_string : ℕ → List ℕ
to_string n = digits 20 n
