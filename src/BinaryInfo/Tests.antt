-- ===== src/BinaryInfo/Tests.antt =====
-- A table of two entries, and the property of BinaryInfo's modules at it.
use picore.Base.{ℕ, ◌≡◌, ◌==◌, Option, none, some, if◌then◌else◌, arith}
use picore.BinaryInfo.{Descriptor, Entry, find_string}
use picore.BinaryInfo.Search.{find_string-lookup}

-- The entries at 256 and 260: identifiers 7 and 9 of type 6 and tag 20562.
abbrev entry_at : ℕ → Option Entry
entry_at a =
    if a == 256
    then some (record { type_no = 6; tag = 20562; id = 7; value = 1000; bytes = 0; length = 0 })
    else (if a == 260
        then some (record { type_no = 6; tag = 20562; id = 9; value = 2000; bytes = 0; length = 0 })
        else none)

abbrev table : Descriptor
table = record { start = 256; end = 264 }

find_string-lookup_example : find_string entry_at 5 table 0 6 20562 9 ≡ some (some 2000, 264)
find_string-lookup_example =
    find_string-lookup entry_at 6 20562 table (omega arith) 2 5 9 0 (omega arith) (omega arith)
      (omega arith)

-- From behind the first entry, that one is not found again.
no_more : find_string entry_at 5 table 260 6 20562 7 ≡ some (none, 0)
no_more =
    find_string-lookup entry_at 6 20562 table (omega arith) 1 5 7 260 (omega arith) (omega arith)
      (omega arith)
