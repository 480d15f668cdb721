-- ===== src/Lms4xxx/ColaB/Checksum.antt =====
-- The XOR checksum of lms4xxx_driver/src/cola_b.cpp tells apart data that differ in one byte.
use mathlib.Core.List.{foldl}
use amiga_drivers.Prelude.{
  ℕ, ◌≡◌, ◌≢◌, refl, sym, ap, ◌∙◌, Bool, true, ◌&&◌, List, [], ◌∷◌, ◌++◌, All, bit_xor, ◌==◌, ltb,
  arith, octets_pass, octet_passes,
}
use amiga_drivers.Common.ByteUtil.{IsByte}
use amiga_drivers.Lms4xxx.ColaB.{compute_checksum}

abbrev undoes : ℕ → ℕ → Bool
undoes a b = bit_xor (bit_xor a b) b == a && (bit_xor a (bit_xor a b) == b && ltb (bit_xor a b) 256)

xor_table : octets_pass (λ a. octets_pass (λ b. undoes a b) 256) 256 ≡ true
unfolding octets_pass
xor_table = refl

undoes_byte : (a b : ℕ) → IsByte a → IsByte b → undoes a b ≡ true
undoes_byte a b ha hb =
    octet_passes (λ y. undoes a y) 256 b hb
      (octet_passes (λ x. octets_pass (λ y. undoes x y) 256) 256 a ha xor_table)

record Laws (a b : ℕ) : Type 0 where
  right : bit_xor (bit_xor a b) b ≡ a
  left : bit_xor a (bit_xor a b) ≡ b
  byte : IsByte (bit_xor a b)

laws : (a b : ℕ) → IsByte a → IsByte b → Laws a b
laws a b ha hb = ground (arith, undoes_byte a b ha hb)

bit_xor-IsByte : (a b : ℕ) → IsByte a → IsByte b → IsByte (bit_xor a b)
bit_xor-IsByte a b ha hb = (laws a b ha hb).byte

bit_xor_cancel_right :
    (a b c : ℕ) → IsByte a → IsByte b → IsByte c → bit_xor a c ≡ bit_xor b c → a ≡ b
bit_xor_cancel_right a b c ha hb hc e =
    sym (laws a c ha hc).right ∙ ap (λ t. bit_xor t c) e ∙ (laws b c hb hc).right

bit_xor_cancel_left :
    (a b c : ℕ) → IsByte a → IsByte b → IsByte c → bit_xor c a ≡ bit_xor c b → a ≡ b
bit_xor_cancel_left a b c ha hb hc e =
    sym (laws c a hc ha).left ∙ ap (λ t. bit_xor c t) e ∙ (laws c b hc hb).left

foldl-IsByte : (u : ℕ) (ys : List ℕ) → IsByte u → All IsByte ys → IsByte (foldl bit_xor u ys)
foldl-IsByte u [] hu hs = hu
foldl-IsByte u (y ∷ ys) hu hs = foldl-IsByte (bit_xor u y) ys (bit_xor-IsByte u y hu hs.0) hs.1

foldl_cancel :
    (u v : ℕ) (ys : List ℕ)
    → IsByte u
    → IsByte v
    → All IsByte ys
    → foldl bit_xor u ys ≡ foldl bit_xor v ys
    → u ≡ v
foldl_cancel u v [] hu hv hs e = e
foldl_cancel u v (y ∷ ys) hu hv hs e = bit_xor_cancel_right u v y hu hv hs.0 (
    foldl_cancel (bit_xor u y) (bit_xor v y) ys (bit_xor-IsByte u y hu hs.0)
      (bit_xor-IsByte v y hv hs.0) hs.1 e)

foldl_byte_cancel :
    (u : ℕ) (xs ys : List ℕ) (a b : ℕ)
    → IsByte u
    → All IsByte xs
    → All IsByte ys
    → IsByte a
    → IsByte b
    → foldl bit_xor u (xs ++ a ∷ ys) ≡ foldl bit_xor u (xs ++ b ∷ ys)
    → a ≡ b
foldl_byte_cancel u [] ys a b hu hx hy ha hb e = bit_xor_cancel_left a b u ha hb hu (
    foldl_cancel (bit_xor u a) (bit_xor u b) ys (bit_xor-IsByte u a hu ha)
      (bit_xor-IsByte u b hu hb) hy e)
foldl_byte_cancel u (x ∷ xs) ys a b hu hx hy ha hb e =
    foldl_byte_cancel (bit_xor u x) xs ys a b (bit_xor-IsByte u x hu hx.0) hx.1 hy ha hb e

pub compute_checksum-IsByte : (bytes : List ℕ) → All IsByte bytes → IsByte (compute_checksum bytes)
unfolding compute_checksum
compute_checksum-IsByte bytes h = foldl-IsByte 0 bytes (omega arith) h

-- Two data parts of bytes that differ in one byte alone have different checksums.
pub compute_checksum_detects :
    (xs ys : List ℕ) (a b : ℕ)
    → All IsByte xs
    → All IsByte ys
    → IsByte a
    → IsByte b
    → a ≢ b
    → compute_checksum (xs ++ a ∷ ys) ≢ compute_checksum (xs ++ b ∷ ys)
unfolding compute_checksum
compute_checksum_detects xs ys a b hx hy ha hb d e =
    d (foldl_byte_cancel 0 xs ys a b (omega arith) hx hy ha hb e)
