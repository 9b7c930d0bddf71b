-- ===== src/SqlValue.antt =====
-- value.hpp and value.cpp: the arguments of a SQL function, and what a C++ parameter makes of one by the
-- conversion operators.
pub mod Identity
use sqxx.Base.{ℕ, Bool, Option, none, some, length, ◌≡◌, ◌==◌, take-length}
use sqxx.Base.Int.{ℤ}
use sqxx.Effect.{Exec, ◌>>=◌, pure, returned}
use sqxx.Statement.{Handle, Bytes}
use sqxx.Statement.Binding.{Blob}
use sqxx.Statement.Values.{string_of, content}

-- The functions of sqlite3 on a value, over sqlite3's state, since they may convert it in place; `null_type`
-- is SQLITE_NULL.
pub record ValueApi (W D : Type 0) : Type 0 where
  pub null_type : ℕ
  pub value_type : Handle → W → ℕ × W
  pub value_int : Handle → W → ℤ × W
  pub value_int64 : Handle → W → ℤ × W
  pub value_double : Handle → W → D × W
  pub value_text : Handle → W → Option Bytes × W
  pub value_blob : Handle → W → Option Bytes × W
  pub value_bytes : Handle → W → ℕ × W

module _ {W D : Type 0} (api : ValueApi W D) (handle : Handle) where
  asked : {R : Type 0} → (Handle → W → R × W) → Exec W R
  asked f w = let (r, w') = f handle w in (returned r, w')

  pub null : Exec W Bool
  unfolding asked
  null = do type ← asked api.value_type; pure (type == api.null_type)

  pub int_of : Exec W ℤ
  unfolding asked
  int_of = asked api.value_int

  pub int64_of : Exec W ℤ
  unfolding asked
  int64_of = asked api.value_int64

  pub double_of : Exec W D
  unfolding asked
  double_of = asked api.value_double

  -- val<const char*>
  pub text_of : Exec W (Option Bytes)
  unfolding asked
  text_of = asked api.value_text

  -- val<std::string>
  pub str_of : Exec W Bytes
  unfolding asked
  str_of = do text ← asked api.value_text; bytes ← asked api.value_bytes; string_of text bytes

  pub blob_of : Exec W Blob
  unfolding asked
  blob_of = do
    address ← asked api.value_blob
    len ← asked api.value_bytes
    pure (record { address = address; size = len })

  -- For a sqlite3 that gives the length of the text or blob that it was asked for before: the argument
  -- of a SQL function reads as std::string as its whole text, a NULL as the empty string, with no
  -- exception, and as a blob it carries the pointer and the number of all of its bytes.
  pub str_of-blob_of :
      (text bytes : Option Bytes) (w : W)
      → (api.value_text handle w).0 ≡ text
      → (api.value_bytes handle (api.value_text handle w).1).0 ≡ length (content text)
      → (api.value_blob handle w).0 ≡ bytes
      → (api.value_bytes handle (api.value_blob handle w).1).0 ≡ length (content bytes)
      → ((str_of w).0 ≡ returned (content text))
        × ((blob_of w).0 ≡ returned (record { address = bytes; size = length (content bytes) }))
  unfolding str_of blob_of asked
  str_of-blob_of none bytes w t n b m = (rw (t, n), rw (b, m))
  str_of-blob_of (some text) bytes w t n b m = (rw (t, n, take-length text), rw (b, m))
