-- ===== src/Common/RingBuffer.antt =====
-- common/include/ring_buffer.h: the buffer between one producer and one consumer. Each call is one step:
-- the acquire and release orders of the source make the other side's store visible as a whole. A slot
-- that holds no element is raw memory, and reading it is a fault. A size_t has 64 bits.
pub mod Fifo
use amiga_drivers.Prelude.{
  ℕ, ◌+◌, ◌-◌, ◌/◌, ◌%◌, ◌^◌, bit_and, bit_or, Bool, true, false, Option, none, some, ltb, ◌==◌,
  if◌then◌else◌,
}

pub record RingBuffer (A : Type 0) : Type 0 where
  pub capacity : ℕ
  pub mask : ℕ
  pub storage : ℕ → Option A
  pub head : ℕ
  pub tail : ℕ

-- `n |= n >> s`
abbrev smear : ℕ → ℕ → ℕ
smear s n = bit_or n (n / 2 ^ s)

unfoldable pub next_power_of_2 : ℕ → ℕ
next_power_of_2 n =
    (smear 32 (smear 16 (smear 8 (smear 4 (smear 2 (smear 1 ((n + 2 ^ 64 - 1) % 2 ^ 64)))))) + 1)
    % 2 ^ 64

module _ {A : Type 0} where
  unfoldable pub new_ring : ℕ → RingBuffer A
  new_ring min_capacity =
      let capacity = next_power_of_2 (if ltb min_capacity 1 then 1 else min_capacity) in
      record {
        capacity = capacity;
        mask = (capacity + 2 ^ 64 - 1) % 2 ^ 64;
        storage = λ i. none;
        head = 0;
        tail = 0;
      }

  -- `ElementAt(index)`
  abbrev pub slot : RingBuffer A → ℕ → ℕ
  slot r index = bit_and index r.mask

  -- The storage with one slot changed.
  abbrev pub put : (ℕ → Option A) → ℕ → Option A → ℕ → Option A
  put storage i x j = if j == i then x else storage j

  unfoldable pub size : RingBuffer A → ℕ
  size r = (r.head + 2 ^ 64 - r.tail) % 2 ^ 64

  unfoldable pub try_push : A → RingBuffer A → Bool × RingBuffer A
  unfolding size
  try_push item r = if size r == r.capacity then (false, r) else (
    true,
    record r { storage = put r.storage (slot r r.head) (some item); head = (r.head + 1) % 2 ^ 64 },
  )

-- What `try_pop` returns.
pub data Popped (A : Type 0) : Type 0 where
  empty : Popped A
  popped : A → Popped A
  fault : Popped A

module _ {A : Type 0} where
  unfoldable pub try_pop : RingBuffer A → Popped A × RingBuffer A
  try_pop r = if r.tail == r.head then (Popped.empty, r) else elim (r.storage (slot r r.tail)) [
    | none ↦ (Popped.fault, r)
    | some x ↦ (
      Popped.popped x,
      record r { storage = put r.storage (slot r r.tail) none; tail = (r.tail + 1) % 2 ^ 64 },
    )
  ]
