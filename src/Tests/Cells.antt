-- ===== src/Tests/Cells.antt =====
-- What a cell reads as, for the small instances of sqlite3: a type that it has not gives zero, or nothing.
use sqxx.Base.{ℕ, some, none, Option, length}
use sqxx.Base.Int.{ℤ, pos}
use sqxx.Statement.{Bytes}
use sqxx.Statement.Echo.{Cell, integer, real, text_cell, blob_cell, pointer_to}

abbrev pub int_in : Cell ℕ → ℤ
int_in (integer z) = z
int_in _ = pos 0

abbrev pub real_in : Cell ℕ → ℕ
real_in (real d) = d
real_in _ = 0

abbrev pub text_in : Cell ℕ → Option Bytes
text_in (text_cell bytes) = some bytes
text_in _ = none

abbrev pub blob_in : Cell ℕ → Option Bytes
blob_in (blob_cell bytes) = pointer_to bytes
blob_in _ = none

abbrev pub size_in : Cell ℕ → ℕ
size_in (text_cell bytes) = length bytes
size_in (blob_cell bytes) = length bytes
size_in _ = 0
