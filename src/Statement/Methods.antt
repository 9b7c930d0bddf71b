-- ===== src/Statement/Methods.antt =====
-- statement.cpp and statement.hpp, the methods of a statement object as values, and the functions of sqlite3
-- that they call on its pointer.
pub mod Frame
pub mod Framed
use sqxx.Base.{ℕ, String, List, [], ◌∷◌}
use sqxx.Base.Int.{ℤ}
use sqxx.Effect.{Exec, Obj, ◌>>=◌, ◌>>◌, pure}
use sqxx.Statement.{
  Handle, Bytes, Lifetime, Statement, StmtApi, run, query, next_row, reset, clear_bindings,
}
use sqxx.Statement.Binding.{Value, bind, bind_named}
use sqxx.Statement.Columns.{col_index}
use sqxx.Statement.Rows.{for_each}
use sqxx.Statement.Rows.Manual.{walk}
use sqxx.Statement.Values.{val_int, val_int64, val_double, val_text, val_string, val_blob}

-- sqlite3_step, sqlite3_reset, and so on, with their arguments.
pub data Native (D : Type 0) : Type 0 where
  steps resets clears_bindings : Native D
  binds_null : ℤ → Native D
  binds_int binds_int64 : ℤ → ℤ → Native D
  binds_double : ℤ → D → Native D
  binds_text64 binds_blob64 : ℤ → Bytes → ℕ → Lifetime → Native D
  binds_zeroblob64 : ℤ → ℕ → Native D
  reads_int reads_int64 reads_double reads_text reads_blob reads_bytes : ℤ → Native D

-- `loops` is the range-based `for` and `walks` the `while` over `done()` and `next_row()`, with at most so many
-- tests of the loop; both read these columns of each row as integers.
pub data Method (D : Type 0) : Type 0 where
  runs queries next_rows resets clears : Method D
  binds : ℤ → Value D → Method D
  binds_named : String → Value D → Method D
  finds : String → Method D
  loops walks : ℕ → List ℤ → Method D
  vals_int vals_int64 vals_double vals_text vals_string vals_blob : ℤ → Method D

module _ {W D : Type 0} (api : StmtApi W D) where
  -- What the function does to sqlite3.
  abbrev pub invoke : Native D → Handle → W → W
  invoke Native.steps h w = (api.step h w).1
  invoke Native.resets h w = (api.reset h w).1
  invoke Native.clears_bindings h w = (api.clear_bindings h w).1
  invoke (binds_null at) h w = (api.bind_null h at w).1
  invoke (binds_int at z) h w = (api.bind_int h at z w).1
  invoke (binds_int64 at z) h w = (api.bind_int64 h at z w).1
  invoke (binds_double at d) h w = (api.bind_double h at d w).1
  invoke (binds_text64 at bytes n life) h w = (api.bind_text64 h at bytes n life w).1
  invoke (binds_blob64 at bytes n life) h w = (api.bind_blob64 h at bytes n life w).1
  invoke (binds_zeroblob64 at n) h w = (api.bind_zeroblob64 h at n w).1
  invoke (reads_int i) h w = (api.column_int h i w).1
  invoke (reads_int64 i) h w = (api.column_int64 h i w).1
  invoke (reads_double i) h w = (api.column_double h i w).1
  invoke (reads_text i) h w = (api.column_text h i w).1
  invoke (reads_blob i) h w = (api.column_blob h i w).1
  invoke (reads_bytes i) h w = (api.column_bytes h i w).1

  unfoldable pub row_ints : List ℤ → Exec (Obj Statement W) (List ℤ)
  row_ints [] = pure []
  row_ints (i ∷ is) = do x ← val_int api i; xs ← row_ints is; pure (x ∷ xs)

  -- The call of the method, without its value.
  unfoldable pub apply_method : Method D → Exec (Obj Statement W) (Unit {0})
  unfolding row_ints
  apply_method runs = run api
  apply_method queries = query api
  apply_method next_rows = next_row api
  apply_method Method.resets = reset api
  apply_method clears = clear_bindings api
  apply_method (binds idx value) = bind api idx value
  apply_method (binds_named name value) = bind_named api name value
  apply_method (finds name) = do _ ← col_index api name; pure tt
  apply_method (loops fuel cols) = do _ ← for_each api (λ _. row_ints cols) fuel; pure tt
  apply_method (walks fuel cols) = do _ ← walk api (row_ints cols) fuel; pure tt
  apply_method (vals_int idx) = do _ ← val_int api idx; pure tt
  apply_method (vals_int64 idx) = do _ ← val_int64 api idx; pure tt
  apply_method (vals_double idx) = do _ ← val_double api idx; pure tt
  apply_method (vals_text idx) = do _ ← val_text api idx; pure tt
  apply_method (vals_string idx) = do _ ← val_string api idx; pure tt
  apply_method (vals_blob idx) = do _ ← val_blob api idx; pure tt
