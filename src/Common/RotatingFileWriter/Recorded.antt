-- ===== src/Common/RotatingFileWriter/Recorded.antt =====
-- What the files of `RotatingFileWriter`, common/include/file_writer.h, hold together.
use amiga_drivers.Prelude.{ℕ, ◌+◌, ◌≡◌, Bool, true, false, List, [], ◌∷◌, ◌++◌, length}
use amiga_drivers.Common.RotatingFileWriter.{Writer, WriterCall}

abbrev pub concat : List (List ℕ) → List ℕ
concat [] = []
concat (xs ∷ xss) = xs ++ concat xss

-- The bytes of all the files, one after the other.
abbrev pub contents : Writer → List ℕ
contents s = concat s.finished ++ s.current

-- What one call adds to the files, if it leaves the writer without a failure.
record Adds (bytes : List ℕ) (n : ℕ) (s t : Writer) : Type 0 where
  unopened : (s.is_open ≡ false → s.current ≡ []) → t.is_open ≡ false → t.current ≡ []
  contents :
      (s.is_open ≡ false → s.current ≡ []) → t.failed ≡ false → contents t ≡ contents s ++ bytes
  bytes_written : t.failed ≡ false → t.bytes_written ≡ s.bytes_written + length bytes
  records_written : t.failed ≡ false → t.records_written ≡ s.records_written + n
  failed : t.failed ≡ false → s.failed ≡ false

-- A call that says no has failed.
record Answers (bytes : List ℕ) (n : ℕ) (s : Writer) (q : Bool × Writer) : Type 0 where
  adds : q.0 ≡ true → Adds bytes n s q.1
  honest : q.0 ≡ false → q.1.failed ≡ true

-- The records of the calls.
unfoldable pub records_of : List WriterCall → List (List ℕ)
records_of [] = []
records_of (WriterCall.append_call bytes ∷ cs) = bytes ∷ records_of cs
records_of (WriterCall.end_call ∷ cs) = records_of cs

-- The files hold these records, one after the other, and the statistics count them.
pub record Holds (records : List (List ℕ)) (s : Writer) : Type 0 where
  pub contents : contents s ≡ concat records
  pub bytes_written : s.bytes_written ≡ length (concat records)
  pub records_written : s.records_written ≡ length records
