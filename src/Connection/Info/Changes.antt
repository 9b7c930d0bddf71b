-- ===== src/Connection/Info/Changes.antt =====
-- connection.cpp, what a connection tells of its last changes, and the calls that only pass a request on:
-- `filename()`, `autocommit()`, `last_insert_rowid()`, `changes()`, `total_changes()`, `interrupt()` and
-- `release_memory()`.
use sqxx.Base.{ℕ, ◌-◌, ◌%◌, ◌^◌, ◌≡◌, ◌<◌, String, Bool, Option, ltb, if◌then◌else◌, arith}
use sqxx.Base.Int.{Fits, to_bool, ℤ, pos, negsuc}
use sqxx.Statement.{Handle}

pub record ChangesApi (W : Type 0) : Type 0 where
  pub db_filename : Handle → String → W → Option String
  pub get_autocommit : Handle → W → ℤ
  pub last_insert_rowid : Handle → W → ℤ
  pub changes : Handle → W → ℤ
  pub total_changes : Handle → W → ℤ
  pub interrupt : Handle → W → W
  pub db_release_memory : Handle → W → ℤ × W

-- The conversion of a 64-bit integer to uint64_t, and back.
abbrev pub to_uint64 : ℤ → ℕ
to_uint64 (pos n) = n % 2 ^ 64
to_uint64 (negsuc n) = 2 ^ 64 - 1 - n % 2 ^ 64

abbrev pub to_int64 : ℕ → ℤ
to_int64 n = if ltb n (2 ^ 63) then pos n else negsuc (2 ^ 64 - 1 - n)

module _ {W : Type 0} (api : ChangesApi W) (handle : Handle) where
  pub filename : String → W → Option String
  filename db w = api.db_filename handle db w

  pub autocommit : W → Bool
  autocommit w = to_bool (api.get_autocommit handle w)

  -- sqlite3's is a signed number.
  pub last_insert_rowid : W → ℕ
  last_insert_rowid w = to_uint64 (api.last_insert_rowid handle w)

  pub changes : W → ℤ
  changes w = api.changes handle w

  pub total_changes : W → ℤ
  total_changes w = api.total_changes handle w

  pub interrupt : W → W
  interrupt w = api.interrupt handle w

  -- The result of sqlite3_db_release_memory is not used.
  pub release_memory : W → W
  release_memory w = (api.db_release_memory handle w).1

  -- A rowid of 64 bits is not lost: the number that last_insert_rowid() gives, converted to a signed number
  -- again, is the rowid, also where that is negative, and it is below 2^64.
  pub last_insert_rowid_lem :
      (z : ℤ) (w : W)
      → api.last_insert_rowid handle w ≡ z
      → Fits 64 z
      → (to_int64 (last_insert_rowid w) ≡ z) × (last_insert_rowid w < 2 ^ 64)
  unfolding last_insert_rowid
  last_insert_rowid_lem (pos n) w e f = rw e (ground (arith, f), ground (arith, f))
  last_insert_rowid_lem (negsuc n) w e f = rw e (ground (arith, f), ground (arith, f))
