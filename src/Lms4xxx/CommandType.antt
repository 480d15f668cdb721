-- ===== src/Lms4xxx/CommandType.antt =====
-- lms4xxx_driver/include/cola_b.h: the 3-byte ASCII command types.
use amiga_drivers.Prelude.{ℕ, List, codes}

abbrev pub read_by_name : List ℕ
read_by_name = codes "sRN"

abbrev pub write_by_name : List ℕ
write_by_name = codes "sWN"

abbrev pub method_by_name : List ℕ
method_by_name = codes "sMN"

abbrev pub event_by_name : List ℕ
event_by_name = codes "sEN"

abbrev pub read_answer : List ℕ
read_answer = codes "sRA"

abbrev pub write_answer : List ℕ
write_answer = codes "sWA"

abbrev pub method_answer : List ℕ
method_answer = codes "sAN"

abbrev pub event_answer : List ℕ
event_answer = codes "sEA"

abbrev pub event_notify : List ℕ
event_notify = codes "sSN"

abbrev pub error_answer : List ℕ
error_answer = codes "sFA"
