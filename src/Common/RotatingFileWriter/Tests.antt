-- ===== src/Common/RotatingFileWriter/Tests.antt =====
-- The theorems on common/include/file_writer.h at concrete inputs.
use amiga_drivers.Prelude.{◌≡◌, refl, true, false, none, some, List, [], ◌∷◌, ◌==◌, not, arith}
use amiga_drivers.Common.RotatingFileWriter.{
  Options, Streams, WriterCall, new_writer, close_current, write_header, open_file, open_next,
  rotate_if_needed, ensure_open, precheck, write, append, call, run,
}
use amiga_drivers.Common.RotatingFileWriter.Cap.{Capped, run-Capped}

abbrev plain : Options
plain = record { max_file_bytes = 5; precheck_size_cap = true; on_new_file = none }

abbrev headed : Options
headed = record { max_file_bytes = 5; precheck_size_cap = true; on_new_file = some (9 ∷ []) }

abbrev good_streams : Streams
good_streams = record { succeeds = λ n. true; torn = λ n. 0; interval_over = λ n. false }

-- The twelfth access fails.
abbrev bad_streams : Streams
bad_streams = record { succeeds = λ n. not (n == 11); torn = λ n. 1; interval_over = λ n. n == 6 }

-- The second record does not fit into the first file.
abbrev calls : List WriterCall
calls =
    WriterCall.append_call (1 ∷ 2 ∷ 3 ∷ [])
    ∷ WriterCall.append_call (4 ∷ 5 ∷ 6 ∷ [])
    ∷ WriterCall.end_call
    ∷ WriterCall.append_call (7 ∷ [])
    ∷ []

run-Capped_example : Capped headed (run headed bad_streams calls new_writer)
run-Capped_example = run-Capped headed bad_streams calls refl (omega arith)

-- A record as long as the limit goes behind the header of a new file.
header_over_limit :
    (run headed good_streams
      (WriterCall.append_call (1 ∷ 2 ∷ 3 ∷ 4 ∷ 5 ∷ []) ∷ [])
      new_writer).finished
    ≡ (9 ∷ []) ∷ (9 ∷ 1 ∷ 2 ∷ 3 ∷ 4 ∷ 5 ∷ []) ∷ []
unfolding run call append ensure_open open_next close_current open_file write_header precheck write
    rotate_if_needed
header_over_limit = refl
