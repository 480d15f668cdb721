-- ===== src/Prelude/Masks.antt =====
-- Which numbers are a run of ones, and `bit_and` and `bit_or` with a mask of leading ones.
use Prim.Native.Nat.{
  ℕ, zero, suc, ◌+◌, ◌-◌, ◌*◌, ◌/◌, ◌%◌, ◌≤◌, ◌<◌, bit_and, bit_or, bit_and-bitwise, bit_or-bitwise,
}
use mathlib.Core.Path.{◌≡◌, refl, sym, ap, ◌∙◌}
use native.Mathlib.Omega.{arith}
use native.Mathlib.Nat.{div-div-eq-div-mul, div-one, mod-eq_of_lt, one-mul, zero-mod}
use amiga_drivers.Prelude.Tests.{◌==◌, Bool-cases}
use mathlib.Core.Logic.{inl, inr}
use amiga_drivers.Prelude.Bits.{
  and_on, or_on, or_none, pow2, pow2_pos, mod_pow2, halves, bit_and-ones,
}

and_same : (fuel a : ℕ) → a ≤ fuel → and_on fuel a a ≡ a
and_same zero zero h = refl
and_same zero (suc a) h = absurd (omega arith)
and_same (suc fuel) zero h = refl
and_same (suc fuel) (suc a) h = omega (arith, and_same fuel (suc a / 2) (omega arith))

run_on : (fuel n : ℕ) → n ≤ fuel → and_on fuel n (n + 1) ≡ 0 → (k : ℕ) × (n + 1 ≡ pow2 k)
run_on fuel zero h e = (0, refl)
run_on zero (suc n) h e = absurd (omega arith)
run_on (suc fuel) (suc n) h e = elim (Bool-cases (suc n % 2 == 1)) [
  | inl is_odd ↦
      let odd : suc n % 2 ≡ 1 = ground (arith, is_odd) in
      let up : (suc n + 1) / 2 ≡ suc n / 2 + 1 = omega (arith, odd) in
      let low : and_on fuel (suc n / 2) ((suc n + 1) / 2) ≡ 0 = omega (arith, e) in
      let (k, r) =
        run_on fuel (suc n / 2) (omega arith) (ap (and_on fuel (suc n / 2)) (sym up) ∙ low) in
      (suc k, omega (arith, r, odd))
  | inr is_even ↦
      let even : suc n % 2 ≡ 0 = ground (arith, is_even) in
      let same : (suc n + 1) / 2 ≡ suc n / 2 = omega (arith, even) in
      let low : and_on fuel (suc n / 2) ((suc n + 1) / 2) ≡ 0 = omega (arith, e) in
      let half : suc n / 2 ≡ 0 =
        sym (and_same fuel (suc n / 2) (omega arith))
        ∙ ap (and_on fuel (suc n / 2)) (sym same)
        ∙ low in
      absurd (omega (arith, half, even))
]

-- A number that shares no digit with the next one is a run of ones.
pub bit_and-next : (n : ℕ) → bit_and n (n + 1) ≡ 0 → (k : ℕ) × (n + 1 ≡ pow2 k)
bit_and-next n e = run_on n n (omega arith) (sym (bit_and-bitwise n (n + 1)) ∙ e)

and_fuel : (f g a b : ℕ) → a ≤ f → a ≤ g → and_on f a b ≡ and_on g a b
and_fuel zero zero a b h k = refl
and_fuel zero (suc g) zero b h k = refl
and_fuel zero (suc g) (suc a) b h k = absurd (omega arith)
and_fuel (suc f) zero zero b h k = refl
and_fuel (suc f) zero (suc a) b h k = absurd (omega arith)
and_fuel (suc f) (suc g) zero b h k = refl
and_fuel (suc f) (suc g) (suc a) b h k =
    omega (arith, and_fuel f g (suc a / 2) (b / 2) (omega arith) (omega arith))

and_double : (fuel a c : ℕ) → a ≤ fuel → and_on fuel a (c * 2) ≡ and_on fuel (a / 2) c * 2
and_double zero zero c h = refl
and_double zero (suc a) c h = absurd (omega arith)
and_double (suc fuel) zero c h = refl
and_double (suc fuel) (suc a) c h =
    let half : c * 2 / 2 ≡ c = omega arith in
    let shift = and_fuel fuel (suc fuel) (suc a / 2) c (omega arith) (omega arith) in
    let step : and_on fuel (suc a / 2) (c * 2 / 2) ≡ and_on fuel (suc a / 2) c =
      ap (and_on fuel (suc a / 2)) half in
    omega (arith, step, shift)

bit_and-double : (a c : ℕ) → bit_and a (c * 2) ≡ bit_and (a / 2) c * 2
bit_and-double a c =
    bit_and-bitwise a (c * 2)
    ∙ and_double a a c (omega arith)
    ∙ ap (λ x. x * 2)
        (and_fuel a (a / 2) (a / 2) c (omega arith) (omega arith) ∙ sym (bit_and-bitwise (a / 2) c))

bit_and-shift : (k a c : ℕ) → bit_and a (c * pow2 k) ≡ bit_and (a / pow2 k) c * pow2 k
bit_and-shift zero a c =
    let same : c * 1 ≡ c = omega arith in
    let whole : a / 1 ≡ a = div-one a in rw same (rw whole (omega arith))
bit_and-shift (suc k) a c =
    let shape : c * (pow2 k * 2) ≡ c * pow2 k * 2 = grind arith in
    let out : bit_and (a / 2 / pow2 k) c * pow2 k * 2 ≡ bit_and (a / 2 / pow2 k) c * (pow2 k * 2) =
      grind arith in
    let double : a / 2 / pow2 k ≡ a / (pow2 k * 2) =
      div-div-eq-div-mul a 2 (pow2 k) ∙ ap (λ x. a / x) (omega arith) in
    ap (bit_and a) shape
    ∙ bit_and-double a (c * pow2 k)
    ∙ ap (λ x. x * 2) (bit_and-shift k (a / 2) c)
    ∙ out
    ∙ ap (λ x. bit_and x c * (pow2 k * 2)) double

-- A mask of j ones before k zeros clears the last k digits.
pub bit_and-leading :
    (j k a : ℕ) → a / pow2 k < pow2 j → bit_and a ((pow2 j - 1) * pow2 k) ≡ a / pow2 k * pow2 k
bit_and-leading j k a h =
    bit_and-shift k a (pow2 j - 1)
    ∙ ap (λ x. x * pow2 k) (bit_and-ones j (a / pow2 k) ∙ mod-eq_of_lt h)

or_full : (k fuel a : ℕ) → a ≤ fuel → a % pow2 k ≡ pow2 k - 1 → or_on fuel a (pow2 k - 1) ≡ a
or_full zero fuel a h e = or_none fuel a h
or_full (suc k) zero zero h e = absurd (omega (arith, pow2_pos k, e, sym (zero-mod (pow2 k * 2))))
or_full (suc k) zero (suc a) h e = absurd (omega arith)
or_full (suc k) (suc fuel) zero h e =
    absurd (omega (arith, pow2_pos k, e, sym (zero-mod (pow2 k * 2))))
or_full (suc k) (suc fuel) (suc a) h e =
    let step = halves (pow2 k) (pow2_pos k) in
    let m = mod_pow2 k (suc a) in
    let low : suc a / 2 % pow2 k ≡ pow2 k - 1 = omega (arith, m, e, pow2_pos k) in
    let rest : or_on fuel (suc a / 2) ((pow2 k * 2 - 1) / 2) ≡ suc a / 2 =
      ap (or_on fuel (suc a / 2)) step.0 ∙ or_full k fuel (suc a / 2) (omega arith) low in
    omega (arith, rest, step.1, m, e, pow2_pos k)

-- Ones are there already.
pub bit_or-full : (k a : ℕ) → a % pow2 k ≡ pow2 k - 1 → bit_or a (pow2 k - 1) ≡ a
bit_or-full k a e = bit_or-bitwise a (pow2 k - 1) ∙ or_full k a a (omega arith) e

pub pow2_mono : (j k : ℕ) → j ≤ k → pow2 j ≤ pow2 k
pow2_mono zero k h = pow2_pos k
pow2_mono (suc j) zero h = absurd (omega arith)
pow2_mono (suc j) (suc k) h = omega (arith, pow2_mono j k (omega arith))

pub pow2_add : (j k : ℕ) → pow2 (j + k) ≡ pow2 j * pow2 k
pow2_add zero k = let same : 0 + k ≡ k = omega arith in ap pow2 same ∙ sym (one-mul (pow2 k))
pow2_add (suc j) k = grind (arith, pow2_add j k)
