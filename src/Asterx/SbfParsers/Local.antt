-- ===== src/Asterx/SbfParsers/Local.antt =====
-- The reads of asterx_driver/src/sbf_parsers.cpp stay within the size of the buffer.
use amiga_drivers.Prelude.{
  ℕ, zero, suc, ◌+◌, ◌≤◌, ◌<◌, ◌≡◌, refl, Bool, true, false, Bool-cases, inl, inr, List, length,
  get_or, get_or-drop, drop, arith,
}
use amiga_drivers.Common.ByteUtil.{load_little_u16, load_little_u32, load_little_u64}
use amiga_drivers.Asterx.SbfTypes.{BlockHeader}
use amiga_drivers.Asterx.SbfParsers.{
  Reader, Got, got, refused, stray, Read, pure, and_then, ◌>>=◌, check, check_ok, load, skip,
  read_group, optional_group, need, read_ins_nav_geod_body, read_agc_state, read_agc_states,
  read_receiver_status_body,
}

-- The first bytes of the two memories are there and the same.
pub record Agree (n : ℕ) (mem other : List ℕ) : Type 0 where
  pub there : n ≤ length mem
  pub there_too : n ≤ length other
  pub same : (i : ℕ) → i < n → get_or mem i 0 ≡ get_or other i 0

-- A position of a reader within its size.
pub record Within (n : ℕ) (r : Reader) : Type 0 where
  pub size : r.size ≤ n
  pub pos : r.pos ≤ r.size

-- A read that stays within.
abbrev pub IsWithin : {A : Type 0} → ℕ → Got A → Type 0
IsWithin n (got a r) = Within n r
IsWithin n refused = Unit {0}
IsWithin n stray = ⊥

-- A read of the one memory that is the read of the other, and stays within.
pub record Local {A : Type 0} (n : ℕ) (m k : Read A) : Type 0 where
  pub same : (r : Reader) → Within n r → m r ≡ k r
  pub safe : (r : Reader) → Within n r → IsWithin n (m r)

and_then-Local :
    {A B : Type 0} (n : ℕ) (x : Got A) (f g : A → Read B)
    → IsWithin n x
    → ((a : A) → Local n (f a) (g a))
    → (and_then x f ≡ and_then x g) × IsWithin n (and_then x f)
and_then-Local n (got a r) f g h l = ((l a).same r h, (l a).safe r h)
and_then-Local n refused f g h l = (refl, tt)
and_then-Local n stray f g h l = absurd h

pub then-Local :
    {A B : Type 0} {n : ℕ} {m k : Read A} {f g : A → Read B}
    → Local n m k
    → ((a : A) → Local n (f a) (g a))
    → Local n (m >>= f) (k >>= g)
then-Local {n = n} {m} {k} {f} {g} l h = record {
  same = λ r w. ground (arith, l.same r w, (and_then-Local n (m r) f g (l.safe r w) h).0);
  safe = λ r w. (and_then-Local n (m r) f g (l.safe r w) h).1;
}

pub pure-Local : {A : Type 0} {n : ℕ} (a : A) → Local n (pure a) (pure a)
pure-Local a = record { same = λ r w. refl; safe = λ r w. w }

pub check-Local : {n : ℕ} (b : Bool) → Local n (check b) (check b)
check-Local true = record { same = λ r w. refl; safe = λ r w. w }
check-Local false = record { same = λ r w. refl; safe = λ r w. tt }

pub check_ok-Local : {n : ℕ} → Local n check_ok check_ok
check_ok-Local = record { same = λ r w. refl; safe = λ r w. ground (arith, w) }

module _ {n : ℕ} {mem other : List ℕ} (agree : Agree n mem other) where
  load-Local :
      (k : ℕ) (value : List ℕ → ℕ)
      → ((p : ℕ) → p + k ≤ n → value (drop p mem) ≡ value (drop p other))
      → Local n (load mem k value) (load other k value)
  unfolding load
  load-Local k value e = record {
    same = λ r w. elim (Bool-cases (need k r)) [
      | inl enough ↦
          ground
            (arith, enough, w, agree.there, agree.there_too, e r.pos (ground (arith, enough, w)))
      | inr lacks ↦ ground (arith, lacks)
    ];
    safe = λ r w. ground (arith, w, agree.there);
  }

  byte : (p i : ℕ) → p + i < n → get_or (drop p mem) i 0 ≡ get_or (drop p other) i 0
  byte p i h = ground (arith, get_or-drop p i mem 0, get_or-drop p i other 0, agree.same (p + i) h)

  pub u8-Local : Local n (load mem 1 (λ p. get_or p 0 0)) (load other 1 (λ p. get_or p 0 0))
  u8-Local = load-Local 1 (λ p. get_or p 0 0) (λ p h. byte p 0 (omega arith))

  pub u16-Local : Local n (load mem 2 load_little_u16) (load other 2 load_little_u16)
  unfolding load_little_u16
  u16-Local =
      load-Local 2 load_little_u16
        (λ p h. ground (arith, byte p 0 (omega arith), byte p 1 (omega arith)))

  pub u32-Local : Local n (load mem 4 load_little_u32) (load other 4 load_little_u32)
  unfolding load_little_u32
  u32-Local = load-Local 4 load_little_u32 (λ p h. ground (
    arith,
    byte p 0 (omega arith),
    byte p 1 (omega arith),
    byte p 2 (omega arith),
    byte p 3 (omega arith),
  ))

  pub skip-Local : (k : ℕ) → Local n (skip mem k) (skip other k)
  unfolding skip
  skip-Local k = record { same = λ r w. refl; safe = λ r w. ground (arith, w) }

  pub u64-Local : Local n (load mem 8 load_little_u64) (load other 8 load_little_u64)
  unfolding load_little_u64 load_little_u32
  u64-Local = load-Local 8 load_little_u64 (λ p h. ground (
    arith,
    byte p 0 (omega arith),
    byte p 1 (omega arith),
    byte p 2 (omega arith),
    byte p 3 (omega arith),
    byte p 4 (omega arith),
    byte p 5 (omega arith),
    byte p 6 (omega arith),
    byte p 7 (omega arith),
    get_or-drop 4 0 (drop p mem) 0,
    get_or-drop 4 1 (drop p mem) 0,
    get_or-drop 4 2 (drop p mem) 0,
    get_or-drop 4 3 (drop p mem) 0,
    get_or-drop 4 0 (drop p other) 0,
    get_or-drop 4 1 (drop p other) 0,
    get_or-drop 4 2 (drop p other) 0,
    get_or-drop 4 3 (drop p other) 0,
  ))

  ruleset read_rules = (
    then-Local, pure-Local, check-Local, check_ok-Local, u8-Local, u16-Local, u32-Local, u64-Local,
    skip-Local,
  )

  read_group-Local : Local n (read_group mem) (read_group other)
  unfolding read_group
  read_group-Local = search read_rules

  optional_group-Local : (b : Bool) → Local n (optional_group mem b) (optional_group other b)
  optional_group-Local true = read_group-Local
  optional_group-Local false = pure-Local _

  read_agc_state-Local :
      (padding : ℕ) → Local n (read_agc_state mem padding) (read_agc_state other padding)
  unfolding read_agc_state
  read_agc_state-Local padding = search read_rules depth 20

  read_agc_states-Local :
      (left padding : ℕ)
      → Local n (read_agc_states mem left padding) (read_agc_states other left padding)
  unfolding read_agc_states
  read_agc_states-Local zero padding = pure-Local _
  read_agc_states-Local (suc left) padding =
      then-Local (read_agc_state-Local padding)
        (λ _. then-Local (read_agc_states-Local left padding) (λ _. pure-Local _))

  -- What follows the header.
  pub ins_nav_geod-Local :
      (h : BlockHeader) → Local n (read_ins_nav_geod_body mem h) (read_ins_nav_geod_body other h)
  unfolding read_ins_nav_geod_body
  ins_nav_geod-Local h = search (read_rules, optional_group-Local) depth 60

  pub receiver_status-Local :
      (h : BlockHeader)
      → Local n (read_receiver_status_body mem h) (read_receiver_status_body other h)
  unfolding read_receiver_status_body
  receiver_status-Local h = search (read_rules, read_agc_states-Local) depth 40
