-- ===== src/Statement/Values.antt =====
-- statement.cpp, `statement::val<T>()`: the values of the current row. `column::val<T>()` of
-- column.impl.hpp calls it.
use sqxx.Base.{ℕ, zero, suc, Option, none, some, [], length, take, ◌≡◌, take-length}
use sqxx.Base.Int.{ℤ}
use sqxx.Effect.{std_exception, Exec, Obj, ◌>>=◌, pure, throw, call, gets, returned}
use sqxx.Statement.{Handle, Bytes, Statement, StmtApi}
use sqxx.Statement.Binding.{Blob}

-- `std::string(const char*, n)`: of a null pointer only the empty string can be made.
abbrev pub string_of : {S : Type 0} → Option Bytes → ℕ → Exec S Bytes
string_of none zero = pure []
string_of none (suc n) = throw (std_exception "basic_string: construction from null")
string_of (some bytes) n = pure (take n bytes)

-- The bytes of a text, and none for a null pointer.
abbrev pub content : Option Bytes → Bytes
content none = []
content (some bytes) = bytes

module _ {W D : Type 0} (api : StmtApi W D) where
  unfoldable pub val_int : ℤ → Exec (Obj Statement W) ℤ
  val_int idx = do handle ← gets (λ s. s.handle); call (api.column_int handle idx)

  unfoldable pub val_int64 : ℤ → Exec (Obj Statement W) ℤ
  val_int64 idx = do handle ← gets (λ s. s.handle); call (api.column_int64 handle idx)

  unfoldable pub val_double : ℤ → Exec (Obj Statement W) D
  val_double idx = do handle ← gets (λ s. s.handle); call (api.column_double handle idx)

  -- val<const char*>
  unfoldable pub val_text : ℤ → Exec (Obj Statement W) (Option Bytes)
  val_text idx = do handle ← gets (λ s. s.handle); call (api.column_text handle idx)

  -- val<std::string>
  unfoldable pub val_string : ℤ → Exec (Obj Statement W) Bytes
  val_string idx = do
    handle ← gets (λ s. s.handle)
    text ← call (api.column_text handle idx)
    bytes ← call (api.column_bytes handle idx)
    string_of text bytes

  unfoldable pub val_blob : ℤ → Exec (Obj Statement W) Blob
  val_blob idx = do
    handle ← gets (λ s. s.handle)
    address ← call (api.column_blob handle idx)
    bytes ← call (api.column_bytes handle idx)
    pure (record { address = address; size = bytes })

  -- What sqlite3 promises of text: the number of bytes, asked for after the text, is its length, or 0
  -- for a null pointer.
  abbrev pub Measured :
      (Handle → ℤ → W → Option Bytes × W) → Option Bytes → ℤ → Obj Statement W → Type 0
  Measured read none idx o =
      ((read o.self.handle idx o.world).0 ≡ none)
      × ((api.column_bytes o.self.handle idx (read o.self.handle idx o.world).1).0 ≡ 0)
  Measured read (some bytes) idx o =
      ((read o.self.handle idx o.world).0 ≡ some bytes)
      × ((api.column_bytes o.self.handle idx (read o.self.handle idx o.world).1).0 ≡ length bytes)

  -- For a sqlite3 that gives the length of a text it was asked for before: a column read as
  -- std::string is its whole text, zero bytes inside it included, and a NULL is the empty string; it
  -- does not throw.
  pub val_string_lem :
      (text : Option Bytes) (idx : ℤ) (o : Obj Statement W)
      → Measured api.column_text text idx o
      → (val_string idx o).0 ≡ returned (content text)
  unfolding val_string
  val_string_lem none idx o (e, n) = rw (e, n)
  val_string_lem (some bytes) idx o (e, n) = rw (e, n, take-length bytes)

  -- For a sqlite3 that gives the length of a blob it was asked for before: a column read as a blob
  -- carries the pointer and the number of all of its bytes.
  pub val_blob_lem :
      (bytes : Option Bytes) (idx : ℤ) (o : Obj Statement W)
      → Measured api.column_blob bytes idx o
      → (val_blob idx o).0 ≡ returned (record { address = bytes; size = length (content bytes) })
  unfolding val_blob
  val_blob_lem none idx o (e, n) = rw (e, n)
  val_blob_lem (some bytes) idx o (e, n) = rw (e, n)
