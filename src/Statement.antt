-- ===== src/Statement.antt =====
-- statement.hpp and statement.cpp: the object, its construction and destruction, and execution.
-- Binding and columns are in the modules below.
pub mod Columns
pub mod Binding
pub mod Values
pub mod Rows
pub mod Ownership
pub mod Cursor
pub mod Echo
pub mod Info
pub mod Methods
use sqxx.Base.{ℕ, String, Bool, true, false, not, Option, none, some, List, [], if◌then◌else◌}
use sqxx.Base.Int.{ℤ}
use sqxx.Effect.{
  Code, sqlite_row, sqlite_done, error, Exec, Obj, ◌>>=◌, ◌>>◌, pure, throw, call, call_void, gets,
  modify, static_error, check,
}

-- A pointer to an object of sqlite3; `none` is the null pointer.
abbrev pub Handle : Type 0
Handle = Option ℕ

abbrev pub Bytes : Type 0
Bytes = List ℕ

-- The destructor argument of the bind and result functions.
pub data Lifetime : Type 0 where
  transient static : Lifetime

-- The functions of sqlite3 that statement.cpp calls, over sqlite3's own state `W`; `D` is `double`.
-- A function whose result depends on the state only gives no new state.
pub record StmtApi (W D : Type 0) : Type 0 where
  pub errstr : Code → String
  pub step : Handle → W → Code × W
  pub reset : Handle → W → Code × W
  pub finalize : Handle → W → Code × W
  pub clear_bindings : Handle → W → Code × W
  pub bind_parameter_index : Handle → String → W → ℤ
  pub bind_parameter_count : Handle → W → ℤ
  pub bind_parameter_name : Handle → ℤ → W → Option String
  pub bind_null : Handle → ℤ → W → Code × W
  pub bind_int : Handle → ℤ → ℤ → W → Code × W
  pub bind_int64 : Handle → ℤ → ℤ → W → Code × W
  pub bind_double : Handle → ℤ → D → W → Code × W
  pub bind_text64 : Handle → ℤ → Bytes → ℕ → Lifetime → W → Code × W
  pub bind_blob64 : Handle → ℤ → Bytes → ℕ → Lifetime → W → Code × W
  pub bind_zeroblob64 : Handle → ℤ → ℕ → W → Code × W
  pub column_count : Handle → W → ℤ
  pub column_name : Handle → ℤ → W → Option String
  pub column_int : Handle → ℤ → W → ℤ × W
  pub column_int64 : Handle → ℤ → W → ℤ × W
  pub column_double : Handle → ℤ → W → D × W
  pub column_text : Handle → ℤ → W → Option Bytes × W
  pub column_blob : Handle → ℤ → W → Option Bytes × W
  pub column_bytes : Handle → ℤ → W → ℕ × W

-- `conn` is the reference to the connection, which only has to stay alive.
pub record Statement : Type 0 where
  pub handle : Handle
  pub conn : ℕ
  pub completed : Bool
  pub col_index_table_built : Bool
  pub col_index_table : List (String × ℕ)

unfoldable pub init : ℕ → Handle → Statement
init conn handle = record {
  handle = handle;
  conn = conn;
  completed = true;
  col_index_table_built = false;
  col_index_table = [];
}

-- bool done() const; operator bool() is its negation.
abbrev pub done : Statement → Bool
done s = s.completed

module _ {W D : Type 0} (api : StmtApi W D) where
  unfoldable finalize_if : Handle → W → W
  finalize_if none w = w
  finalize_if (some p) w = (api.finalize (some p) w).1

  -- ~statement()
  unfoldable pub destroy : Statement → W → W
  unfolding finalize_if
  destroy s w = finalize_if s.handle w

  -- The ladder of `step()` over the code.
  unfoldable after_step : Code → Exec (Obj Statement W) (Unit {0})
  after_step sqlite_row = modify (λ s. record s { completed = false })
  after_step sqlite_done = modify (λ s. record s { completed = true })
  after_step rv = throw (static_error api.errstr rv)

  unfoldable pub step : Exec (Obj Statement W) (Unit {0})
  unfolding after_step
  step = do handle ← gets (λ s. s.handle); rv ← call (api.step handle); after_step rv

  unfoldable pub run : Exec (Obj Statement W) (Unit {0})
  unfolding step
  run = step

  unfoldable pub query : Exec (Obj Statement W) (Unit {0})
  unfolding run
  query = run

  unfoldable pub next_row : Exec (Obj Statement W) (Unit {0})
  unfolding step
  next_row = step

  -- The code of sqlite3_reset is read and not acted on.
  unfoldable pub reset : Exec (Obj Statement W) (Unit {0})
  reset = do
    handle ← gets (λ s. s.handle)
    _ ← call (api.reset handle)
    modify (λ s. record s { col_index_table = []; col_index_table_built = false })

  unfoldable pub clear_bindings : Exec (Obj Statement W) (Unit {0})
  clear_bindings = do
    handle ← gets (λ s. s.handle)
    rv ← call (api.clear_bindings handle)
    check api.errstr rv

-- A move constructor or assignment that is defaulted copies the pointer and the flags, and moves
-- the table: the pair is the new object and the one moved from.
pub move : Statement → Statement × Statement
move s = (s, record s { col_index_table = [] })
