-- ===== src/Common/RingBuffer/Fifo.antt =====
-- common/include/ring_buffer.h is a queue of at most its capacity, over any number of pushes and pops: its
-- indices run over the end of a size_t and on.
use amiga_drivers.Prelude.{
  ℕ, zero, suc, ◌+◌, ◌-◌, ◌*◌, ◌%◌, ◌^◌, ◌≤◌, ◌<◌, ◌≡◌, ◌≢◌, refl, sym, ap, ◌∙◌, subst, Bool,
  Bool-cases, true, false, inl, inr, Option, none, some, List, [], ◌∷◌, ◌++◌, length, pow2,
  pow2_pos, bit_and, bit_and-ones, ltb, if◌then◌else◌, arith,
}
use amiga_drivers.Common.RingBuffer.{RingBuffer, Popped, slot, put, size, try_push, try_pop}
use native.Mathlib.Nat.{
  mod-mod_of_dvd, mod-eq-sub-mod, mod-eq_of_lt, mod-add-mod, mod-lt, dvd-mul_right, add-mod_right,
  mul-one, mul_assoc,
}

-- Two indices less than a whole turn apart have different slots.
mod_apart : (c m d : ℕ) → 0 < d → d < c → m % c ≢ (m + d) % c
mod_apart c m d h k e =
    let r = m % c in
    let some_turn : 0 < c = omega arith in
    let small = mod-lt m some_turn in
    let turned = mod-add-mod m c d in
    elim (Bool-cases (ltb (r + d) c)) [
      | inl below ↦
          let fits : r + d < c = ground (arith, below) in
          omega (arith, e, small, turned, mod-eq_of_lt fits)
      | inr above ↦
          let over : c ≤ r + d = ground (arith, above) in
          let fits : r + d - c < c = omega (arith, small) in
          omega (arith, e, small, turned, mod-eq-sub-mod over, mod-eq_of_lt fits)
    ]

-- 2^64 is whole turns of any ring.
turns : (k j m : ℕ) → k + j ≡ m → pow2 m ≡ pow2 k * pow2 j
turns k zero m e = let same : m ≡ k = omega (arith, e) in ap pow2 same ∙ sym (mul-one (pow2 k))
turns k (suc j) zero e = absurd (omega arith)
turns k (suc j) (suc m) e =
    let rest = turns k j m (omega (arith, e)) in
    ap (λ x. x * 2) rest ∙ mul_assoc (pow2 k) (pow2 j) 2

wrapped : (k n : ℕ) → k ≤ 63 → n % 2 ^ 64 % pow2 k ≡ n % pow2 k
wrapped k n h =
    let whole = turns k (64 - k) 64 (omega arith) in
    subst (λ m. n % m % pow2 k ≡ n % pow2 k) (sym whole)
      (mod-mod_of_dvd (pow2 k) n (dvd-mul_right (pow2 k) (pow2 (64 - k))))

pow2_mono : (k : ℕ) → k ≤ 63 → pow2 k ≤ 2 ^ 63
pow2_mono k h = grind (arith, turns k (63 - k) 63 (omega arith), pow2_pos (63 - k), pow2_pos k)

module _ {A : Type 0} where
  abbrev pub Slots : (ℕ → Option A) → ℕ → ℕ → List A → Type 0
  Slots storage c n [] = Unit {0}
  Slots storage c n (x ∷ xs) = (storage (n % c) ≡ some x) × Slots storage c (n + 1) xs

  -- The ring has 2^k slots and holds `xs`, the oldest first. `n` elements have gone before them.
  pub record Holds (k n : ℕ) (r : RingBuffer A) (xs : List A) : Type 0 where
    pub small : k ≤ 63
    pub capacity : r.capacity ≡ pow2 k
    pub mask : r.mask ≡ pow2 k - 1
    pub tail : r.tail ≡ n % 2 ^ 64
    pub head : r.head ≡ (n + length xs) % 2 ^ 64
    pub room : length xs ≤ pow2 k
    pub slots : Slots r.storage (pow2 k) n xs

  slot_mod :
      (k n : ℕ) (r : RingBuffer A) → k ≤ 63 → r.mask ≡ pow2 k - 1 → slot r (n % 2 ^ 64) ≡ n % pow2 k
  slot_mod k n r h m = ap (bit_and (n % 2 ^ 64)) m ∙ bit_and-ones k (n % 2 ^ 64) ∙ wrapped k n h

  -- A slot outside the ones in use.
  put_other :
      (s : ℕ → Option A) (o : Option A) (i j : ℕ) (v : Option A) → i ≢ j → s i ≡ v → put s j o i ≡ v
  put_other s o i j v d e = ground (arith, d, e)

  put_same : (s : ℕ → Option A) (o : Option A) (j : ℕ) → put s j o j ≡ o
  put_same s o j = ground arith

  Slots-put_other :
      (s : ℕ → Option A) (c n t : ℕ) (o : Option A) (xs : List A)
      → n + length xs ≤ t
      → t < n + c
      → Slots s c n xs
      → Slots (put s (t % c) o) c n xs
  Slots-put_other s c n t o [] l k e = tt
  Slots-put_other s c n t o (x ∷ xs) l k e =
      let apart = mod_apart c n (t - n) (omega arith) (omega arith) in
      let at : n + (t - n) ≡ t = omega arith in
      (
        put_other s o (n % c) (t % c) (some x) (subst (λ m. n % c ≢ m % c) at apart) e.0,
        Slots-put_other s c (n + 1) t o xs (omega arith) (omega arith) e.1,
      )

  Slots-snoc :
      (s : ℕ → Option A) (c n : ℕ) (x : A) (xs : List A)
      → Slots s c n xs
      → s ((n + length xs) % c) ≡ some x
      → Slots s c n (xs ++ (x ∷ []))
  Slots-snoc s c n x [] h e =
      let at : n + 0 ≡ n = omega arith in (subst (λ m. s (m % c) ≡ some x) at e, tt)
  Slots-snoc s c n x (y ∷ xs) h e =
      let at : n + suc (length xs) ≡ n + 1 + length xs = omega arith in
      (h.0, Slots-snoc s c (n + 1) x xs h.1 (subst (λ m. s (m % c) ≡ some x) at e))

  length_snoc : (xs : List A) (x : A) → length (xs ++ (x ∷ [])) ≡ suc (length xs)
  length_snoc [] x = refl
  length_snoc (y ∷ xs) x = ap suc (length_snoc xs x)

  -- `size()` is the number of elements.
  size-Holds : (k n : ℕ) (r : RingBuffer A) (xs : List A) → Holds k n r xs → size r ≡ length xs
  unfolding size
  size-Holds k n r xs h = omega (arith, h.head, h.tail, h.room, pow2_mono k h.small)

  push_room :
      (k n : ℕ) (x : A) (r : RingBuffer A) (xs : List A)
      → Holds k n r xs
      → length xs < pow2 k
      → Holds k n
          (record r {
            storage = put r.storage (slot r r.head) (some x);
            head = (r.head + 1) % 2 ^ 64;
          })
          (xs ++ (x ∷ []))
  push_room k n x r xs h l =
      let at : slot r r.head ≡ (n + length xs) % pow2 k =
        ap (slot r) h.head ∙ slot_mod k (n + length xs) r h.small h.mask in
      record {
        small = h.small;
        capacity = h.capacity;
        mask = h.mask;
        tail = h.tail;
        head = omega (arith, h.head, length_snoc xs x);
        room = omega (arith, length_snoc xs x, l);
        slots =
            subst (λ j. Slots (put r.storage j (some x)) (pow2 k) n (xs ++ (x ∷ []))) (sym at)
              (Slots-snoc (put r.storage ((n + length xs) % pow2 k) (some x)) (pow2 k) n x xs
                (Slots-put_other r.storage (pow2 k) n (n + length xs) (some x) xs (omega arith)
                  (omega arith) h.slots)
                (put_same r.storage (some x) ((n + length xs) % pow2 k)));
      }

  pop_rest :
      (k n : ℕ) (x : A) (r : RingBuffer A) (xs : List A)
      → Holds k n r (x ∷ xs)
      → Holds k
          (n + 1)
          (record r { storage = put r.storage (slot r r.tail) none; tail = (r.tail + 1) % 2 ^ 64 })
          xs
  pop_rest k n x r xs h =
      let at : slot r r.tail ≡ n % pow2 k = ap (slot r) h.tail ∙ slot_mod k n r h.small h.mask in
      let turn : (n + pow2 k) % pow2 k ≡ n % pow2 k = add-mod_right n (pow2 k) in
      record {
        small = h.small;
        capacity = h.capacity;
        mask = h.mask;
        tail = omega (arith, h.tail);
        head = omega (arith, h.head);
        room = omega (arith, h.room);
        slots =
            subst (λ j. Slots (put r.storage j none) (pow2 k) (n + 1) xs) (turn ∙ sym at)
              (Slots-put_other r.storage (pow2 k) (n + 1) (n + pow2 k) none xs
                (omega (arith, h.room)) (omega arith) h.slots.1);
      }

  -- A queue of a list, with at most `c` elements, says what a call returns and what it leaves.
  abbrev pub queue_push : ℕ → A → List A → Bool × List A
  queue_push c x xs = if ltb (length xs) c then (true, xs ++ (x ∷ [])) else (false, xs)

  abbrev pub queue_pop : List A → Popped A × List A
  queue_pop [] = (Popped.empty, [])
  queue_pop (x ∷ xs) = (Popped.popped x, xs)

  pub try_push-queue_push :
      (k n : ℕ) (x : A) (r : RingBuffer A) (xs : List A)
      → Holds k n r xs
      → ((try_push x r).0 ≡ (queue_push (pow2 k) x xs).0)
        × Holds k n (try_push x r).1 (queue_push (pow2 k) x xs).1
  unfolding try_push
  try_push-queue_push k n x r xs h =
      let sized = size-Holds k n r xs h in
      elim (Bool-cases (ltb (length xs) (pow2 k))) [
        | inl free ↦
            let room : length xs < pow2 k = ground (arith, free) in
            ground (arith, free, sized, h, push_room k n x r xs h room)
        | inr full ↦ ground (arith, full, sized, h)
      ]

  -- The front element is in its slot.
  front :
      (k n : ℕ) (x : A) (r : RingBuffer A) (xs : List A)
      → Holds k n r (x ∷ xs)
      → r.storage (slot r r.tail) ≡ some x
  front k n x r xs h = ap r.storage (ap (slot r) h.tail ∙ slot_mod k n r h.small h.mask) ∙ h.slots.0

  not_empty :
      (k n : ℕ) (x : A) (r : RingBuffer A) (xs : List A) → Holds k n r (x ∷ xs) → r.tail ≢ r.head
  not_empty k n x r xs h e = omega (arith, e, h.tail, h.head, h.room, pow2_mono k h.small)

  pub try_pop-queue_pop :
      (k n : ℕ) (r : RingBuffer A) (xs : List A)
      → Holds k n r xs
      → ((try_pop r).0 ≡ (queue_pop xs).0) × ((m : ℕ) × Holds k m (try_pop r).1 (queue_pop xs).1)
  unfolding try_pop
  try_pop-queue_pop k n r [] h =
      let same : r.tail ≡ r.head = omega (arith, h.tail, h.head) in
      (ground (arith, same), (n, ground (arith, same, h)))
  try_pop-queue_pop k n r (x ∷ xs) h =
      let apart = not_empty k n x r xs h in
      let at = front k n x r xs h in
      (ground (arith, apart, at), (n + 1, ground (arith, apart, at, pop_rest k n x r xs h)))

pub data RingCall (A : Type 0) : Type 0 where
  push_call : A → RingCall A
  pop_call : RingCall A

pub data Answer (A : Type 0) : Type 0 where
  pushed_answer : Bool → Answer A
  popped_answer : Popped A → Answer A

module _ {A : Type 0} where
  -- What a sequence of calls returns.
  abbrev pub ring_run : List (RingCall A) → RingBuffer A → List (Answer A)
  ring_run [] r = []
  ring_run (RingCall.push_call x ∷ cs) r =
      Answer.pushed_answer (try_push x r).0 ∷ ring_run cs (try_push x r).1
  ring_run (RingCall.pop_call ∷ cs) r =
      Answer.popped_answer (try_pop r).0 ∷ ring_run cs (try_pop r).1

  abbrev pub queue_run : ℕ → List (RingCall A) → List A → List (Answer A)
  queue_run c [] xs = []
  queue_run c (RingCall.push_call x ∷ cs) xs =
      Answer.pushed_answer (queue_push c x xs).0 ∷ queue_run c cs (queue_push c x xs).1
  queue_run c (RingCall.pop_call ∷ cs) xs =
      Answer.popped_answer (queue_pop xs).0 ∷ queue_run c cs (queue_pop xs).1

answers :
    {A : Type 0} {a b : Answer A} {xs ys : List (Answer A)} → a ≡ b → xs ≡ ys → a ∷ xs ≡ b ∷ ys
answers p q = cc (p, q)

-- A ring that holds `xs` answers any sequence of pushes and pops as a queue of its capacity does: elements
-- come out in the order in which they went in, a push is refused exactly if the capacity is used up, a pop
-- finds none exactly if none is held, and no raw memory is read. The two indices may wrap round.
pub ring_run-queue_run :
    {A : Type 0} (k n : ℕ) (calls : List (RingCall A)) (r : RingBuffer A) (xs : List A)
    → Holds k n r xs
    → ring_run calls r ≡ queue_run (pow2 k) calls xs
ring_run-queue_run k n [] r xs h = refl
ring_run-queue_run k n (RingCall.push_call x ∷ cs) r xs h =
    let p = try_push-queue_push k n x r xs h in
    let rest = ring_run-queue_run k n cs (try_push x r).1 (queue_push (pow2 k) x xs).1 p.1 in
    answers (ap Answer.pushed_answer p.0) rest
ring_run-queue_run k n (RingCall.pop_call ∷ cs) r xs h =
    let p = try_pop-queue_pop k n r xs h in
    let rest = ring_run-queue_run k p.1.0 cs (try_pop r).1 (queue_pop xs).1 p.1.1 in
    answers (ap Answer.popped_answer p.0) rest
