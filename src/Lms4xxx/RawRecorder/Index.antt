-- ===== src/Lms4xxx/RawRecorder/Index.antt =====
-- Every row of the index that lms4xxx_driver/src/raw_recorder.cpp writes finds its telegram.
use amiga_drivers.Prelude.{
  ℕ, zero, suc, ◌+◌, ◌≤◌, ◌≡◌, refl, ap, ◌∙◌, true, ◌||◌, List, [], ◌∷◌, ◌++◌, All, All-append,
  length, length-append, take, drop, drop-append_length, leb, ◌==◌, arith,
}
use amiga_drivers.Lms4xxx.RawSplit.{RawRecord, Row, Split}

-- The telegram of a row stands where the row says.
pub record Found (bin : List ℕ) (row : Row) : Type 0 where
  pub inside : row.offset + row.count ≤ length bin
  pub bytes : take row.count (drop row.offset bin) ≡ row.telegram.bytes

take-drop_longer :
    (n m : ℕ) (xs ys : List ℕ) → m + n ≤ length xs → take n (drop m (xs ++ ys)) ≡ take n (drop m xs)
take-drop_longer zero m xs ys h = refl
take-drop_longer (suc n) zero [] ys h = absurd (omega arith)
take-drop_longer (suc n) zero (x ∷ xs) ys h =
    ap (λ t. x ∷ t) (take-drop_longer n 0 xs ys (omega arith))
take-drop_longer (suc n) (suc m) [] ys h = absurd (omega arith)
take-drop_longer (suc n) (suc m) (x ∷ xs) ys h = take-drop_longer (suc n) m xs ys (omega arith)

-- More bytes at the end change nothing.
All-Found-append :
    (bin more : List ℕ) (rows : List Row) → All (Found bin) rows → All (Found (bin ++ more)) rows
All-Found-append bin more [] h = tt
All-Found-append bin more (row ∷ rows) h = (
  record {
    inside = omega (arith, h.0.inside, length-append bin more);
    bytes = take-drop_longer row.count row.offset bin more h.0.inside ∙ h.0.bytes;
  },
  All-Found-append bin more rows h.1,
)

take_all : (xs : List ℕ) → take (length xs) xs ≡ xs
take_all [] = refl
take_all (x ∷ xs) = ap (λ t. x ∷ t) (take_all xs)

-- A row for bytes that were just added.
Found-last :
    (bin : List ℕ) (r : RawRecord)
    → Found (bin ++ r.bytes) (record { offset = length bin; count = length r.bytes; telegram = r })
Found-last bin r = record {
  inside = omega (arith, length-append bin r.bytes);
  bytes = ap (take (length r.bytes)) (drop-append_length bin r.bytes) ∙ take_all r.bytes;
}

-- The index of a split is right, and the split keeps to the limit unless it holds one telegram.
pub record GoodSplit (limit : ℕ) (p : Split) : Type 0 where
  pub found : All (Found p.bin) p.rows
  pub sized : ((limit == 0) || (leb (length p.bin) limit || leb (length p.rows) 1)) ≡ true

-- There is room for so many bytes more, or the split has no telegram yet.
abbrev pub HasRoom : ℕ → Split → ℕ → Type 0
HasRoom limit p count =
    ((limit == 0) || ((length p.rows == 0) || leb (length p.bin + count) limit)) ≡ true

-- More bytes without a row, as a write that fails leaves them.
pub GoodSplit-bytes :
    (limit : ℕ) (p q : Split) (more : List ℕ) (count : ℕ)
    → q.bin ≡ p.bin ++ more
    → q.rows ≡ p.rows
    → length more ≤ count
    → HasRoom limit p count
    → GoodSplit limit p
    → GoodSplit limit q
GoodSplit-bytes limit p q more count eb er l h g = record {
  found = ground (arith, eb, er, All-Found-append p.bin more p.rows g.found);
  sized = ground (arith, eb, er, length-append p.bin more, h);
}

-- A whole telegram with its row.
pub GoodSplit-telegram :
    (limit : ℕ) (p q : Split) (r : RawRecord)
    → q.bin ≡ p.bin ++ r.bytes
    → q.rows
      ≡ p.rows ++ (record { offset = length p.bin; count = length r.bytes; telegram = r } ∷ [])
    → HasRoom limit p (length r.bytes)
    → GoodSplit limit p
    → GoodSplit limit q
GoodSplit-telegram limit p q r eb er h g =
    let row : Row = record { offset = length p.bin; count = length r.bytes; telegram = r } in
    record {
      found = ground (
        arith,
        eb,
        er,
        All-append (Found (p.bin ++ r.bytes)) p.rows (row ∷ [])
            (All-Found-append p.bin r.bytes p.rows g.found) (Found-last p.bin r, tt),
      );
      sized =
          ground (arith, eb, er, length-append p.bin r.bytes, length-append p.rows (row ∷ []), h);
    }
