-- ===== src/Common/Ipv4/Masks.antt =====
-- The masks of common/src/ebus/ipv4.cpp as arithmetic: a block of addresses is a power of two of them.
use amiga_drivers.Prelude.{
  ℕ, zero, suc, ◌+◌, ◌-◌, ◌*◌, ◌/◌, ◌%◌, ◌^◌, ◌≤◌, ◌<◌, ◌≡◌, ◌≢◌, refl, sym, ap, ◌∙◌, true, false,
  Bool-cases, Option-cases, inl, inr, some, List, [], ◌∷◌, ltb, ◌==◌, ==_iff, bit_and, bit_or,
  bit_or-add, bit_and-next, bit_and-leading, bit_or-full, pow2, pow2_pos, pow2_mono, pow2_add,
  octets_pass, octet_passes, arith,
}
use native.Mathlib.Nat.{div-add-mod', div-lt_iff_lt-mul, mod-lt}
use amiga_drivers.Common.Ipv4.{
  split, parse_octet, parse_parts, parse_ipv4, not_u32, is_contiguous_mask, leading_ones,
  prefix_length, same_subnet, is_usable_host,
}

-- The addresses that share the first bits, so many of them.
abbrev pub block : ℕ → ℕ
block prefix = pow2 (32 - prefix)

-- A mask of so many ones, and zeros behind them.
abbrev pub mask_of : ℕ → ℕ
mask_of prefix = 2 ^ 32 - block prefix

ones_counted : octets_pass (λ k. leading_ones 32 (2 ^ 32 - pow2 k) == 32 - k) 33 ≡ true
unfolding octets_pass
ones_counted = refl

leading_ones-mask : (k : ℕ) → k < 33 → leading_ones 32 (2 ^ 32 - pow2 k) ≡ 32 - k
leading_ones-mask k h =
    (==_iff (leading_ones 32 (2 ^ 32 - pow2 k)) (32 - k)).0
      (octet_passes (λ k. leading_ones 32 (2 ^ 32 - pow2 k) == 32 - k) 33 k h ones_counted)

-- No power of two above this one is as small.
exponent_small : (k : ℕ) → pow2 k ≤ 2 ^ 32 → k < 33
exponent_small k h = elim (Bool-cases (ltb k 33)) [
  | inl small ↦ ground (arith, small)
  | inr large ↦
      let beyond : 33 ≤ k = ground (arith, large) in
      absurd (omega (arith, pow2_mono 33 k beyond, h))
]

-- The complement of a contiguous mask is a run of ones.
contiguous :
    (mask : ℕ)
    → mask < 2 ^ 32
    → is_contiguous_mask mask ≡ true
    → (k : ℕ) × (not_u32 mask + 1 ≡ pow2 k)
contiguous mask h e = elim (Bool-cases (mask == 0)) [
  | inl none_set ↦ let z : mask ≡ 0 = ground (arith, none_set) in (32, omega (arith, z))
  | inr some_set ↦
      let z : 0 < mask = ground (arith, some_set) in
      let fits : (not_u32 mask + 1) % 2 ^ 32 ≡ not_u32 mask + 1 = omega (arith, z, h) in
      bit_and-next (not_u32 mask) (
        ap (bit_and (not_u32 mask)) (sym fits)
        ∙ (==_iff (bit_and (not_u32 mask) ((not_u32 mask + 1) % 2 ^ 32)) 0).0 e)
]

-- What `PrefixLength` returns is the number of ones of a mask that is made of leading ones.
pub prefix_length-mask :
    (mask prefix : ℕ)
    → mask < 2 ^ 32
    → prefix_length mask ≡ some prefix
    → (mask ≡ mask_of prefix) × (prefix ≤ 32)
unfolding prefix_length
prefix_length-mask mask prefix h e = elim (Bool-cases (is_contiguous_mask mask)) [
  | inr gap ↦ absurd (ground (arith, gap, e))
  | inl whole ↦
      let (k, run) = contiguous mask h whole in
      let small = exponent_small k (omega (arith, run, h)) in
      let shape : mask ≡ 2 ^ 32 - pow2 k = omega (arith, run, h) in
      let count : leading_ones 32 mask ≡ 32 - k =
        ap (leading_ones 32) shape ∙ leading_ones-mask k small in
      let found : leading_ones 32 mask ≡ prefix = ground (arith, whole, e) in
      let back : 32 - prefix ≡ k = omega (arith, small, count, found) in
      (shape ∙ ap (λ x. 2 ^ 32 - pow2 x) (sym back), omega (arith, count, found))
]

less_one : (m b : ℕ) → 0 < m → (m - 1) * b + b ≡ m * b
less_one zero b h = absurd (omega arith)
less_one (suc m) b h = let same : suc m - 1 ≡ m = omega arith in rw same (grind arith)

same_factor : (a b k : ℕ) → 0 < k → a * k ≡ b * k → a ≡ b
same_factor a b k h e = grind (arith, h, e)

module _ (prefix : ℕ) (h : prefix ≤ 32) where
  whole_range : pow2 prefix * block prefix ≡ 2 ^ 32
  whole_range =
      let all : prefix + (32 - prefix) ≡ 32 = omega (arith, h) in
      sym (pow2_add prefix (32 - prefix)) ∙ ap pow2 all

  mask_of-product : mask_of prefix ≡ (pow2 prefix - 1) * block prefix
  mask_of-product =
      omega (arith, less_one (pow2 prefix) (block prefix) (pow2_pos prefix), whole_range)

  -- The mask takes an address to the first one of its block.
  bit_and-mask_of :
      (a : ℕ) → a < 2 ^ 32 → bit_and a (mask_of prefix) ≡ a / block prefix * block prefix
  bit_and-mask_of a small =
      ap (bit_and a) mask_of-product
      ∙ bit_and-leading prefix (32 - prefix) a
          ((div-lt_iff_lt-mul (pow2_pos (32 - prefix))).1 (omega (arith, small, whole_range)))

  -- Two addresses of which the mask leaves the same are of one block.
  pub same_subnet-block :
      (a b : ℕ)
      → a < 2 ^ 32
      → b < 2 ^ 32
      → same_subnet a b (mask_of prefix) ≡ true
      → a / block prefix ≡ b / block prefix
  same_subnet-block a b x y e =
      same_factor (a / block prefix) (b / block prefix) (block prefix) (pow2_pos (32 - prefix)) (
        sym (bit_and-mask_of a x)
        ∙ (==_iff (bit_and a (mask_of prefix)) (bit_and b (mask_of prefix))).0 e
        ∙ bit_and-mask_of b y)

-- A usable address of a block: not 0, no loopback, multicast or reserved address, and neither the first of
-- the block, the network, nor the last, the broadcast.
pub record Usable (prefix ip : ℕ) : Type 0 where
  pub some_address : ip ≢ 0
  pub no_loopback : ip / 2 ^ 24 ≢ 127
  pub below_multicast : ip / 2 ^ 24 < 224
  pub no_network : 0 < ip % block prefix
  pub no_broadcast : ip % block prefix + 1 < block prefix

pub is_usable_host-Usable :
    (ip prefix : ℕ)
    → ip < 2 ^ 32
    → 8 ≤ prefix
    → prefix ≤ 30
    → is_usable_host ip (mask_of prefix) ≡ true
    → Usable prefix ip
unfolding is_usable_host
is_usable_host-Usable ip prefix small low high e =
    let range : prefix ≤ 32 = omega (arith, high) in
    let least : 4 ≤ block prefix = pow2_mono 2 (32 - prefix) (omega (arith, high)) in
    let most : block prefix ≤ 2 ^ 24 = pow2_mono (32 - prefix) 24 (omega (arith, low)) in
    let parts = div-add-mod' ip (block prefix) in
    let some_ones : (mask_of prefix == 0) ≡ false = ground (arith, most) in
    let some_zeros : (mask_of prefix == 4294967295) ≡ false = ground (arith, least) in
    let host : (bit_and ip (mask_of prefix) == ip) ≡ false =
      ground (arith, e, some_ones, some_zeros) in
    let last : (bit_or ip (not_u32 (mask_of prefix)) == ip) ≡ false =
      ground (arith, e, some_ones, some_zeros) in
    let rest : not_u32 (mask_of prefix) ≡ block prefix - 1 = omega (arith, least, most) in
    let below : ip % block prefix < block prefix = mod-lt ip (pow2_pos (32 - prefix)) in
    record {
      some_address = ground (arith, e);
      no_loopback = ground (arith, e);
      below_multicast = ground (arith, e);
      no_network = ground (arith, host, bit_and-mask_of prefix range ip small, parts);
      no_broadcast = elim (Bool-cases (ip % block prefix == block prefix - 1)) [
        | inl full ↦
            let ones = (==_iff (ip % block prefix) (block prefix - 1)).0 full in
            let whole : bit_or ip (not_u32 (mask_of prefix)) ≡ ip =
              ap (bit_or ip) rest ∙ bit_or-full (32 - prefix) ip ones in
            absurd (ground (arith, whole, last))
        | inr other ↦ ground (arith, other, below, least)
      ];
    }

parse_octet_small : (part : List ℕ) (octet : ℕ) → parse_octet part ≡ some octet → octet < 256
parse_octet_small part octet e = ground (arith, e)

parse_parts_small :
    (parts : List (List ℕ)) (value v : ℕ)
    → value < 2 ^ 32
    → parse_parts parts value ≡ some v
    → v < 2 ^ 32
unfolding parse_parts
parse_parts_small [] value v h e = ground (arith, h, e)
parse_parts_small (part ∷ rest) value v h e = elim (Option-cases (parse_octet part)) [
  | inl bad ↦ absurd (ground (arith, bad, e))
  | inr (octet, good) ↦
      let small = parse_octet_small part octet good in
      let joined : bit_or (value * 2 ^ 8 % 2 ^ 32) octet ≡ value * 2 ^ 8 % 2 ^ 32 + octet =
        bit_or-add 8 (value * 2 ^ 8 % 2 ^ 32) octet small (omega arith) in
      parse_parts_small rest (bit_or (value * 2 ^ 8 % 2 ^ 32) octet) v
        (omega (arith, joined, small)) (ground (arith, good, e))
]

-- An address has 32 bits.
pub parse_ipv4_small : (text : List ℕ) (v : ℕ) → parse_ipv4 text ≡ some v → v < 2 ^ 32
unfolding parse_ipv4
parse_ipv4_small text v e = ground (arith, e, parse_parts_small (split text 46) 0 v (omega arith))
