-- ===== src/SqlValue/Identity.antt =====
-- A C++ function that returns its argument, as a SQL function: value.cpp, the call of
-- connection_create_function.impl.hpp and the results of context.cpp together.
use sqxx.Base.{ℕ, ◌≡◌, ◌≢◌, refl, ap, true, Option, none, some, [], ◌∷◌, length, take, take-length}
use sqxx.Base.Int.{Fits, ℤ}
use sqxx.Effect.{◌>>=◌, pure, returned, thrown, bad_alloc}
use sqxx.Statement.{Handle, Bytes}
use sqxx.Statement.Binding.{lifetime}
use sqxx.Statement.Echo.{Cell, null_cell, integer, real, text_cell, blob_cell, zeros, pointer_to}
use sqxx.Function.{
  Callable, Output, int, int64, double, text, str, blob, Result, result_null, result_int,
  result_int64, result_double, result_text, result_blob, result_zeroblob, result, finish_call,
  function_call,
}
use sqxx.Function.Apply.{function_call_lem}
use sqxx.SqlValue.{ValueApi, asked, int_of, int64_of, double_of, text_of, str_of, blob_of}

-- The types that the parameter and the return value may have.
pub data ValueType : Type 0 where
  as_int as_int64 as_double as_text as_str as_blob : ValueType

-- What sqlite3 documents of the values that it passes to a function: each reads as what it is.
pub record ValueLaws {W D : Type 0} (api : ValueApi W D) : Type 0 where
  pub cell : Handle → W → Cell D
  pub value_int :
      (z : ℤ) (h : Handle) (w : W) → Fits 32 z → cell h w ≡ integer z → (api.value_int h w).0 ≡ z
  pub value_int64 :
      (z : ℤ) (h : Handle) (w : W) → Fits 64 z → cell h w ≡ integer z → (api.value_int64 h w).0 ≡ z
  pub value_double : (d : D) (h : Handle) (w : W) → cell h w ≡ real d → (api.value_double h w).0 ≡ d
  pub null_text : (h : Handle) (w : W) → cell h w ≡ null_cell → (api.value_text h w).0 ≡ none
  pub value_text :
      (bytes : Bytes) (h : Handle) (w : W)
      → cell h w ≡ text_cell bytes
      → let (t, w') = api.value_text h w in
        (t ≡ some bytes) × ((api.value_bytes h w').0 ≡ length bytes)
  pub value_blob :
      (bytes : Bytes) (h : Handle) (w : W)
      → cell h w ≡ blob_cell bytes
      → let (t, w') = api.value_blob h w in
        (t ≡ pointer_to bytes) × ((api.value_bytes h w').0 ≡ length bytes)

-- What the caller of the SQL function gets; none for an error.
abbrev pub result_cell : {D : Type 0} → Result D → Option (Cell D)
result_cell result_null = some null_cell
result_cell (result_int z) = some (integer z)
result_cell (result_int64 z) = some (integer z)
result_cell (result_double d) = some (real d)
result_cell (result_text bytes n life) = some (text_cell (take n bytes))
result_cell (result_blob bytes n life) = some (blob_cell (take n bytes))
result_cell (result_zeroblob n) = some (blob_cell (zeros n))
result_cell r = none

abbrev HasNoZero : Bytes → Type 0
HasNoZero [] = Unit {0}
HasNoZero (b ∷ bytes) = (b ≢ 0) × HasNoZero bytes

-- The values that a type can hold without a conversion.
abbrev pub Holds : {D : Type 0} → ValueType → Cell D → Type 0
Holds as_int (integer z) = Fits 32 z
Holds as_int64 (integer z) = Fits 64 z
Holds as_double (real d) = Unit {0}
Holds as_text null_cell = Unit {0}
Holds as_text (text_cell bytes) = HasNoZero bytes
Holds as_str (text_cell bytes) = Unit {0}
Holds as_blob (blob_cell bytes) = Unit {0}
Holds t c = ⊥

module _ {W D : Type 0} (api : ValueApi W D) where
  -- [](T x) { return x; } for the type T, with the conversion of its parameter
  unfoldable pub identity : ValueType → Callable Handle W (Output D)
  identity t [] w = (thrown bad_alloc, w)
  identity as_int (h ∷ _) w = (do x ← int_of api h; pure (int x)) w
  identity as_int64 (h ∷ _) w = (do x ← int64_of api h; pure (int64 x)) w
  identity as_double (h ∷ _) w = (do x ← double_of api h; pure (double x)) w
  identity as_text (h ∷ _) w = (do x ← text_of api h; pure (text x true)) w
  identity as_str (h ∷ _) w = (do x ← str_of api h; pure (str x true)) w
  identity as_blob (h ∷ _) w = (do x ← blob_of api h; pure (blob x true)) w

  module _ (laws : ValueLaws api) where
    blob_result :
        (bytes : Bytes)
        → result_cell (
            result {D = D} (blob (record { address = pointer_to bytes; size = length bytes }) true))
          ≡ some (blob_cell bytes)
    unfolding result
    blob_result [] = refl
    blob_result (b ∷ bytes) = ap (λ t. some (blob_cell (b ∷ t))) (take-length bytes)

    text_result :
        (bytes : Bytes)
        → result_cell {D = D} (result_text bytes (length bytes) (lifetime true))
          ≡ some (text_cell bytes)
    text_result bytes = ap (λ t. some (text_cell t)) (take-length bytes)

    blob_of_lem :
        (bytes : Bytes) (h : Handle) (w : W)
        → laws.cell h w ≡ blob_cell bytes
        → (blob_of api h w).0
          ≡ returned (record { address = pointer_to bytes; size = length bytes })
    unfolding blob_of asked
    blob_of_lem bytes h w e = let (t, n) = laws.value_blob bytes h w e in rw (t, n) refl

    blob_lem :
        (bytes : Bytes) (h : Handle) (w : W)
        → laws.cell h w ≡ blob_cell bytes
        → result_cell (finish_call (identity as_blob (h ∷ []) w)).0 ≡ some (blob_cell bytes)
    unfolding identity finish_call
    blob_lem bytes h w e = rw (blob_of_lem bytes h w e) (blob_result bytes)

    identity_lem :
        (t : ValueType) (c : Cell D) (h : Handle) (w : W)
        → laws.cell h w ≡ c
        → Holds t c
        → result_cell (finish_call (identity t (h ∷ []) w)).0 ≡ some c
    unfolding identity finish_call result int_of int64_of double_of text_of str_of blob_of asked
    identity_lem as_int (integer z) h w e f = rw (laws.value_int z h w f e) refl
    identity_lem as_int64 (integer z) h w e f = rw (laws.value_int64 z h w f e) refl
    identity_lem as_double (real d) h w e f = rw (laws.value_double d h w e) refl
    identity_lem as_text null_cell h w e f = rw (laws.null_text h w e) refl
    identity_lem as_text (text_cell bytes) h w e f =
        let (t, n) = laws.value_text bytes h w e in rw t (text_result bytes)
    identity_lem as_str (text_cell bytes) h w e f =
        let (t, n) = laws.value_text bytes h w e in rw (t, n, take-length bytes) (text_result bytes)
    identity_lem as_blob (blob_cell bytes) h w e f = blob_lem bytes h w e
    identity_lem _ _ h w e f = absurd f

    -- For a sqlite3 that tells the values of arguments as documented: a C++ function that returns its
    -- parameter, of any of the six types, called from SQL with one argument that the type can hold, gives
    -- that argument as its result, zero bytes in a text for std::string and empty blobs included; a
    -- NULL stays one for `const char*`.
    pub function_call-identity :
        (t : ValueType) (c : Cell D) (argv : ℕ → Handle) (w : W)
        → laws.cell (argv 0) w ≡ c
        → Holds t c
        → result_cell (function_call 1 (identity t) 1 argv w).0 ≡ some c
    function_call-identity t c argv w e f =
        rw (function_call_lem (identity t) argv 1 1 w) (identity_lem t c (argv 0) w e f)
