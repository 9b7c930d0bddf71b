-- ===== src/Tests/StatementApi.antt =====
-- A sqlite3 whose one statement has a list of rows, of one number each, and the columns "a", "b", "a".
use sqxx.Base.{
  ℕ, zero, suc, ◌||◌, not, String, Bool, Option, none, some, List, [], ◌∷◌, get_elem?,
  if◌then◌else◌,
}
use sqxx.Base.Int.{ℤ, pos, pos_part}
use text.Mathlib.Text.{◌==◌}
use sqxx.Effect.{Code, sqlite_ok, sqlite_row, sqlite_done, sqlite_abort}
use sqxx.Statement.{Handle, Bytes, StmtApi}
use sqxx.Connection.Queries.Unwinding.{including, excluding}
use sqxx.Session.Laws.{is_fit}

-- The rows left, the last row, and whether it is in hand, the indexes bound, the statements finalized,
-- those that are open, whether one that is not was used, and the databases that are open.
pub record Sqlite : Type 0 where
  pub rest : List ℕ
  pub now : ℕ
  pub held : Bool
  pub bound : List ℤ
  pub finalized : List Handle
  pub broken : Bool
  pub opened : ℕ → Bool
  pub stray : Bool
  pub databases : ℕ → Bool

abbrev pub rows : List ℕ
rows = 5 ∷ 6 ∷ []

-- The code ends the rows, which then start again.
abbrev pub step_rows : Code → List ℕ → Sqlite → Code × Sqlite
step_rows ending [] w = (ending, record w { rest = rows; held = Bool.false })
step_rows ending (n ∷ rest) w = (sqlite_row, record w { rest = rest; now = n; held = Bool.true })

abbrev pub ending : Sqlite → Code
ending w = if w.broken then sqlite_abort else sqlite_done

abbrev pub used : Handle → Sqlite → Sqlite
used h w = record w { stray = w.stray || not (is_fit w.opened h) }

abbrev pub names : List String
names = "a" ∷ "b" ∷ "a" ∷ []

abbrev params : String → ℤ
params name = if name == ":x" then pos 1 else if name == ":y" then pos 2 else pos 0

abbrev param_at : ℤ → Option String
param_at (pos (suc zero)) = some ":x"
param_at (pos (suc (suc zero))) = some ":y"
param_at _ = none

abbrev bound_at : Handle → ℤ → Sqlite → Code × Sqlite
bound_at h at w = (sqlite_ok, record (used h w) { bound = at ∷ w.bound })

abbrev pub greeting : Bytes
greeting = 104 ∷ 0 ∷ 105 ∷ []

abbrev pub api : StmtApi Sqlite ℕ
api = record {
  errstr = λ c. "error";
  step = λ h w. step_rows (ending w) w.rest (used h w);
  reset = λ h w. (sqlite_ok, record (used h w) { rest = rows; held = Bool.false });
  finalize = λ h w.
      (sqlite_ok, record (used h w) { finalized = h ∷ w.finalized; opened = excluding h w.opened });
  clear_bindings = λ h w. (sqlite_ok, record (used h w) { bound = [] });
  bind_parameter_index = λ h name w. params name;
  bind_parameter_count = λ h w. pos 2;
  bind_parameter_name = λ h at w. param_at at;
  bind_null = λ h at. bound_at h at;
  bind_int = λ h at value. bound_at h at;
  bind_int64 = λ h at value. bound_at h at;
  bind_double = λ h at value. bound_at h at;
  bind_text64 = λ h at bytes n life. bound_at h at;
  bind_blob64 = λ h at bytes n life. bound_at h at;
  bind_zeroblob64 = λ h at n. bound_at h at;
  column_count = λ h w. pos 3;
  column_name = λ h i w. get_elem? names (pos_part i);
  column_int = λ h i w. (pos w.now, used h w);
  column_int64 = λ h i w. (pos w.now, used h w);
  column_double = λ h i w. (w.now, used h w);
  column_text = λ h i w. (some greeting, used h w);
  column_blob = λ h i w. (none, used h w);
  column_bytes = λ h i w. (if w.broken then 0 else 3, used h w);
}

abbrev pub two_rows : Sqlite
two_rows = record {
  rest = rows;
  now = 0;
  held = Bool.false;
  bound = [];
  finalized = [];
  broken = Bool.false;
  opened = including (some 7) (λ q. Bool.false);
  stray = Bool.false;
  databases = λ q. Bool.false;
}

abbrev pub breaking : Sqlite
breaking = record two_rows { broken = Bool.true }
