-- ===== src/Prelude/Bits.antt =====
-- `bit_and` with a mask of ones, and `bit_or` of numbers that share no digit.
use Prim.Native.Nat.{
  ℕ, zero, suc, ◌+◌, ◌-◌, ◌*◌, ◌/◌, ◌%◌, ◌≤◌, ◌<◌, min, max, bit_and, bit_or, digits,
  bit_and-bitwise, bit_or-bitwise,
}
use mathlib.Core.Path.{◌≡◌, refl, sym, ap, ◌∙◌}
use native.Mathlib.Omega.{arith}
use native.Mathlib.Nat.{div-add-mod', mod-lt, mod-eq_of_lt, add-mul-mod_self_right, zero-mod}

abbrev pub and_on : ℕ → ℕ → ℕ → ℕ
and_on fuel a b = digits (λ b. zero) min fuel a b

-- A power of two, doubled at each step.
abbrev pub pow2 : ℕ → ℕ
pow2 zero = 1
pow2 (suc k) = pow2 k * 2

pub pow2_pos : (k : ℕ) → 0 < pow2 k
pow2_pos zero = omega arith
pow2_pos (suc k) = omega (arith, pow2_pos k)

pub mod_pow2 : (k a : ℕ) → a % pow2 (suc k) ≡ a / 2 % pow2 k * 2 + a % 2
mod_pow2 k a =
    let q = a / 2 / pow2 k in
    let r = a / 2 % pow2 k * 2 + a % 2 in
    let whole : a ≡ r + q * (pow2 k * 2) = grind (arith, div-add-mod' (a / 2) (pow2 k)) in
    let small : r < pow2 k * 2 = omega (arith, mod-lt (a / 2) (pow2_pos k)) in
    ap (λ x. x % (pow2 k * 2)) whole ∙ add-mul-mod_self_right r q (pow2 k * 2) ∙ mod-eq_of_lt small

pub halves : (k : ℕ) → 0 < k → ((k * 2 - 1) / 2 ≡ k - 1) × ((k * 2 - 1) % 2 ≡ 1)
halves k h = omega arith

and_ones : (k fuel a : ℕ) → a ≤ fuel → and_on fuel a (pow2 k - 1) ≡ a % pow2 k
and_ones k zero zero h = sym (zero-mod (pow2 k))
and_ones k zero (suc a) h = absurd (omega arith)
and_ones k (suc fuel) zero h = sym (zero-mod (pow2 k))
and_ones zero (suc fuel) (suc a) h = omega (arith, and_ones zero fuel (suc a / 2) (omega arith))
and_ones (suc k) (suc fuel) (suc a) h =
    let step = halves (pow2 k) (pow2_pos k) in
    let rest : and_on fuel (suc a / 2) ((pow2 k * 2 - 1) / 2) ≡ suc a / 2 % pow2 k =
      ap (and_on fuel (suc a / 2)) step.0 ∙ and_ones k fuel (suc a / 2) (omega arith) in
    omega (arith, rest, step.1, mod_pow2 k (suc a))

-- A mask of k ones takes the remainder by 2^k.
pub bit_and-ones : (k a : ℕ) → bit_and a (pow2 k - 1) ≡ a % pow2 k
bit_and-ones k a = bit_and-bitwise a (pow2 k - 1) ∙ and_ones k a a (omega arith)

abbrev pub or_on : ℕ → ℕ → ℕ → ℕ
or_on fuel a b = digits (λ b. b) max fuel a b

pub or_none : (fuel a : ℕ) → a ≤ fuel → or_on fuel a 0 ≡ a
or_none zero zero h = refl
or_none zero (suc a) h = absurd (omega arith)
or_none (suc fuel) zero h = refl
or_none (suc fuel) (suc a) h = omega (arith, or_none fuel (suc a / 2) (omega arith))

or_low : (k fuel a b : ℕ) → a ≤ fuel → b < pow2 k → a % pow2 k ≡ 0 → or_on fuel a b ≡ a + b
or_low zero fuel a zero h l z = omega (arith, or_none fuel a h)
or_low zero fuel a (suc b) h l z = absurd (omega arith)
or_low (suc k) zero zero b h l z = omega arith
or_low (suc k) zero (suc a) b h l z = absurd (omega arith)
or_low (suc k) (suc fuel) zero b h l z = omega arith
or_low (suc k) (suc fuel) (suc a) b h l z =
    let m = mod_pow2 k (suc a) in
    omega
      (arith, m, or_low k fuel (suc a / 2) (b / 2) (omega arith) (omega arith) (omega (arith, m)))

-- Below the lowest digits of a number, there is room for another one.
pub bit_or-add : (k a b : ℕ) → b < pow2 k → a % pow2 k ≡ 0 → bit_or a b ≡ a + b
bit_or-add k a b l z = bit_or-bitwise a b ∙ or_low k a a b (omega arith) l z
