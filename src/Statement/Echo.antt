-- ===== src/Statement/Echo.antt =====
-- statement.cpp, binding, execution and reading together: `SELECT ?` with each of the types.
use sqxx.Base.{
  ℕ, zero, suc, ◌≤◌, ◌≡◌, refl, ◌∙◌, Bool, true, false, Option, none, some, [], ◌∷◌, length, take,
  take-length, arith,
}
use sqxx.Base.Int.{Fits, ℤ, pos, ◌+ℤ◌}
use sqxx.Effect.{Code, sqlite_ok, sqlite_row, Exec, Obj, returned, ◌>>=◌, ◌>>◌, pure}
use sqxx.Statement.{Handle, Bytes, Lifetime, Statement, StmtApi, run, step, after_step}
use sqxx.Statement.Binding.{
  Value, null, int, int64, double, text, str, blob, bind, bind_call, lifetime,
}
use sqxx.Statement.Rows.Visits.{live}
use sqxx.Statement.Values.{
  val_int, val_int64, val_double, val_text, val_string, val_blob, val_string_lem,
}

-- A value as sqlite3 holds it.
pub data Cell (D : Type 0) : Type 0 where
  null_cell : Cell D
  integer : ℤ → Cell D
  real : D → Cell D
  text_cell blob_cell : Bytes → Cell D

abbrev pub zeros : ℕ → Bytes
zeros zero = []
zeros (suc n) = 0 ∷ zeros n

-- The pointer that sqlite3_column_blob gives: null for a blob without bytes.
abbrev pub pointer_to : Bytes → Option Bytes
pointer_to [] = none
pointer_to (b ∷ bs) = some (b ∷ bs)

-- What sqlite3 documents of `SELECT ?` on a database in UTF-8, while it has memory. `is_ready` says that the
-- statement was prepared or reset and not stepped since: the binding functions set the parameter of such a
-- one only, and a step then gives a row of its value. A NaN is bound as NULL; texts and blobs are no longer than
-- SQLITE_LIMIT_LENGTH. The column functions give a value in its own type.
pub record EchoLaws {W D : Type 0} (api : StmtApi W D) (h : Handle) : Type 0 where
  pub bound : W → Cell D
  pub row : W → Cell D
  pub is_ready : W → Bool
  pub is_nan : D → Bool
  pub limit : ℕ
  pub nulls :
      (w : W)
      → is_ready w ≡ true
      → let (c, w') = api.bind_null h (pos 1) w in
        (c ≡ sqlite_ok) × (bound w' ≡ null_cell) × (is_ready w' ≡ true)
  pub ints :
      (z : ℤ) (w : W)
      → Fits 32 z
      → is_ready w ≡ true
      → let (c, w') = api.bind_int h (pos 1) z w in
        (c ≡ sqlite_ok) × (bound w' ≡ integer z) × (is_ready w' ≡ true)
  pub int64s :
      (z : ℤ) (w : W)
      → Fits 64 z
      → is_ready w ≡ true
      → let (c, w') = api.bind_int64 h (pos 1) z w in
        (c ≡ sqlite_ok) × (bound w' ≡ integer z) × (is_ready w' ≡ true)
  pub doubles :
      (d : D) (w : W)
      → is_nan d ≡ false
      → is_ready w ≡ true
      → let (c, w') = api.bind_double h (pos 1) d w in
        (c ≡ sqlite_ok) × (bound w' ≡ real d) × (is_ready w' ≡ true)
  pub texts :
      (bytes : Bytes) (n : ℕ) (l : Lifetime) (w : W)
      → n ≤ length bytes
      → n ≤ limit
      → is_ready w ≡ true
      → let (c, w') = api.bind_text64 h (pos 1) bytes n l w in
        (c ≡ sqlite_ok) × (bound w' ≡ text_cell (take n bytes)) × (is_ready w' ≡ true)
  pub blobs :
      (bytes : Bytes) (n : ℕ) (l : Lifetime) (w : W)
      → n ≤ length bytes
      → n ≤ limit
      → is_ready w ≡ true
      → let (c, w') = api.bind_blob64 h (pos 1) bytes n l w in
        (c ≡ sqlite_ok) × (bound w' ≡ blob_cell (take n bytes)) × (is_ready w' ≡ true)
  pub zeroblobs :
      (n : ℕ) (w : W)
      → n ≤ limit
      → is_ready w ≡ true
      → let (c, w') = api.bind_zeroblob64 h (pos 1) n w in
        (c ≡ sqlite_ok) × (bound w' ≡ blob_cell (zeros n)) × (is_ready w' ≡ true)
  pub steps :
      (w : W)
      → is_ready w ≡ true
      → let (c, w') = api.step h w in (c ≡ sqlite_row) × (row w' ≡ bound w)
  pub null_text : (w : W) → row w ≡ null_cell → (api.column_text h (pos 0) w).0 ≡ none
  pub column_int :
      (z : ℤ) (w : W) → Fits 32 z → row w ≡ integer z → (api.column_int h (pos 0) w).0 ≡ z
  pub column_int64 :
      (z : ℤ) (w : W) → Fits 64 z → row w ≡ integer z → (api.column_int64 h (pos 0) w).0 ≡ z
  pub column_double : (d : D) (w : W) → row w ≡ real d → (api.column_double h (pos 0) w).0 ≡ d
  pub column_text :
      (bytes : Bytes) (w : W)
      → row w ≡ text_cell bytes
      → let (t, w') = api.column_text h (pos 0) w in
        (t ≡ some bytes) × ((api.column_bytes h (pos 0) w').0 ≡ length bytes)
  pub column_blob :
      (bytes : Bytes) (w : W)
      → row w ≡ blob_cell bytes
      → let (t, w') = api.column_blob h (pos 0) w in
        (t ≡ pointer_to bytes) × ((api.column_bytes h (pos 0) w').0 ≡ length bytes)

-- The arguments that keep their value: integers of their types, no NaN, and texts and blobs of no more bytes
-- than there are and than sqlite3 takes.
abbrev pub IsArgument : {D : Type 0} → (D → Bool) → ℕ → Value D → Type 0
IsArgument is_nan limit (int z) = Fits 32 z
IsArgument is_nan limit (int64 z) = Fits 64 z
IsArgument is_nan limit (double d) = is_nan d ≡ false
IsArgument is_nan limit (text (some bytes) copy) = length bytes ≤ limit
IsArgument is_nan limit (str bytes copy) = length bytes ≤ limit
IsArgument is_nan limit (blob b copy) =
    (b.size ≤ limit) × ((bytes : Bytes) → b.address ≡ some bytes → b.size ≤ length bytes)
IsArgument is_nan limit v = Unit {0}

-- The bytes of a `blob` argument: as many zeros, where the pointer is null.
abbrev pub blob_bytes : Option Bytes → ℕ → Bytes
blob_bytes none n = zeros n
blob_bytes (some bytes) n = take n bytes

-- What is read back, each in the type in which it was bound.
abbrev pub echoed : {D : Type 0} → Value D → Value D
echoed null = text none true
echoed (text none copy) = text none true
echoed (text (some bytes) copy) = str bytes true
echoed (str bytes copy) = str bytes true
echoed (blob b copy) =
    let bytes = blob_bytes b.address b.size in
    blob (record { address = pointer_to bytes; size = length bytes }) true
echoed v = v

module _ {W D : Type 0} (api : StmtApi W D) where
  -- val<T>(0), with the type in which the value was bound: `const char*` for NULL, `std::string` for a text
  unfoldable pub fetch : Value D → Exec (Obj Statement W) (Value D)
  fetch null = do t ← val_text api (pos 0); pure (text t true)
  fetch (int z) = do x ← val_int api (pos 0); pure (int x)
  fetch (int64 z) = do x ← val_int64 api (pos 0); pure (int64 x)
  fetch (double d) = do x ← val_double api (pos 0); pure (double x)
  fetch (text none copy) = do t ← val_text api (pos 0); pure (text t true)
  fetch (text (some bytes) copy) = do t ← val_string api (pos 0); pure (str t true)
  fetch (str bytes copy) = do t ← val_string api (pos 0); pure (str t true)
  fetch (blob b copy) = do x ← val_blob api (pos 0); pure (blob x true)

  cell_of : Value D → Cell D
  cell_of null = null_cell
  cell_of (int z) = integer z
  cell_of (int64 z) = integer z
  cell_of (double d) = real d
  cell_of (text none copy) = null_cell
  cell_of (text (some bytes) copy) = text_cell bytes
  cell_of (str bytes copy) = text_cell bytes
  cell_of (blob b copy) = blob_cell (blob_bytes b.address b.size)

module _ {W D : Type 0} (api : StmtApi W D) (s : Statement) (laws : EchoLaws api s.handle) where
  -- The parameter is set, and sqlite3 answers SQLITE_OK.
  abbrev Bound : Cell D → Code × W → Type 0
  Bound cell (c, w) = (c ≡ sqlite_ok) × (laws.bound w ≡ cell) × (laws.is_ready w ≡ true)

  blob_lem :
      (a : Option Bytes) (n : ℕ) (copy : Bool) (w : W)
      → n ≤ laws.limit
      → ((bytes : Bytes) → a ≡ some bytes → n ≤ length bytes)
      → laws.is_ready w ≡ true
      → Bound
          (blob_cell (blob_bytes a n))
          (bind_call api s.handle (pos 1) (blob (record { address = a; size = n }) copy) w)
  unfolding bind_call
  blob_lem none n copy w m f r = laws.zeroblobs n w m r
  blob_lem (some bytes) n copy w m f r = laws.blobs bytes n (lifetime copy) w (f bytes refl) m r

  text_lem :
      (bytes : Bytes) (copy : Bool) (w : W)
      → length bytes ≤ laws.limit
      → laws.is_ready w ≡ true
      → Bound
          (text_cell bytes)
          (api.bind_text64 s.handle (pos 1) bytes (length bytes) (lifetime copy) w)
  text_lem bytes copy w m r =
      rw (take-length bytes) at
        (laws.texts bytes (length bytes) (lifetime copy) w (omega arith) m r)

  bind_call_lem :
      (v : Value D) (w : W)
      → IsArgument laws.is_nan laws.limit v
      → laws.is_ready w ≡ true
      → Bound (cell_of api v) (bind_call api s.handle (pos 1) v w)
  unfolding bind_call cell_of
  bind_call_lem null w f r = laws.nulls w r
  bind_call_lem (int z) w f r = laws.ints z w f r
  bind_call_lem (int64 z) w f r = laws.int64s z w f r
  bind_call_lem (double d) w f r = laws.doubles d w f r
  bind_call_lem (text none copy) w f r = laws.nulls w r
  bind_call_lem (text (some bytes) copy) w f r = text_lem bytes copy w f r
  bind_call_lem (str bytes copy) w f r = text_lem bytes copy w f r
  bind_call_lem (blob b copy) w f r = blob_lem b.address b.size copy w f.0 f.1 r

  string_lem :
      (bytes : Bytes) (w : W)
      → laws.row w ≡ text_cell bytes
      → (fetch api (str bytes true) (record { self = live s; world = w })).0
        ≡ returned (str bytes true)
  unfolding fetch
  string_lem bytes w e =
      let (t, n) = laws.column_text bytes w e in
      let o : Obj Statement W = record { self = live s; world = w } in
      rw (val_string_lem api (some bytes) (pos 0) o (t, n)) refl

  -- Reading the row of the value.
  fetch_lem :
      (v : Value D) (w : W)
      → IsArgument laws.is_nan laws.limit v
      → laws.row w ≡ cell_of api v
      → (fetch api v (record { self = live s; world = w })).0 ≡ returned (echoed v)
  unfolding fetch cell_of val_int val_int64 val_double val_text val_blob
  fetch_lem null w f e = rw (laws.null_text w e) refl
  fetch_lem (int z) w f e = rw (laws.column_int z w f e) refl
  fetch_lem (int64 z) w f e = rw (laws.column_int64 z w f e) refl
  fetch_lem (double d) w f e = rw (laws.column_double d w e) refl
  fetch_lem (text none copy) w f e = rw (laws.null_text w e) refl
  fetch_lem (text (some bytes) copy) w f e = string_lem bytes w e
  fetch_lem (str bytes copy) w f e = string_lem bytes w e
  fetch_lem (blob b copy) w f e =
      let (t, n) = laws.column_blob (blob_bytes b.address b.size) w e in rw (t, n) refl

  -- For a sqlite3 that binds, steps and reads `SELECT ?` as documented, on a database in UTF-8 and with memory
  -- enough, a statement that was not stepped since it was prepared or reset, and any argument of `bind`
  -- that is no NaN and no longer than sqlite3 takes: the value that is bound, run and read back in its own
  -- type is the same; a NULL, as `const char*`, is the null pointer, a text, also one given as
  -- `const char*`, is all of its bytes, zero bytes inside a std::string included, and a blob all of its bytes,
  -- which are zeros where its pointer was null, with the null pointer where there are none. Nothing throws.
  pub fetch-run-bind :
      (v : Value D) (w : W)
      → IsArgument laws.is_nan laws.limit v
      → laws.is_ready w ≡ true
      → ((bind api (pos 0) v >> (run api >> fetch api v)) (record { self = s; world = w })).0
        ≡ returned (echoed v)
  unfolding bind run step after_step ◌+ℤ◌
  fetch-run-bind v w f ready =
      let (ok, bound, bound_ready) = bind_call_lem v w f ready in
      let (row, read) = laws.steps (bind_call api s.handle (pos 1) v w).1 bound_ready in
      rw (ok, row) (fetch_lem v _ f (read ∙ bound))
