-- ===== src/Statement/Columns/Origin.antt =====
-- column.cpp, where a result column comes from, and its type.
use sqxx.Base.{String, Option}
use sqxx.Base.Int.{ℤ}
use sqxx.Effect.{Exec, Obj, ◌>>=◌, call, gets}
use sqxx.Statement.{Handle, Statement}
use sqxx.Statement.Columns.{Column}

pub record ColumnApi (W : Type 0) : Type 0 where
  pub column_database_name : Handle → ℤ → W → Option String
  pub column_table_name : Handle → ℤ → W → Option String
  pub column_origin_name : Handle → ℤ → W → Option String
  pub column_decltype : Handle → ℤ → W → Option String
  pub column_type : Handle → ℤ → W → ℤ × W

module _ {W : Type 0} (api : ColumnApi W) where
  pub database_name : Column → Exec (Obj Statement W) (Option String)
  database_name c = do
    handle ← gets (λ s. s.handle)
    call (λ w. (api.column_database_name handle c.idx w, w))

  pub table_name : Column → Exec (Obj Statement W) (Option String)
  table_name c = do
    handle ← gets (λ s. s.handle)
    call (λ w. (api.column_table_name handle c.idx w, w))

  pub origin_name : Column → Exec (Obj Statement W) (Option String)
  origin_name c = do
    handle ← gets (λ s. s.handle)
    call (λ w. (api.column_origin_name handle c.idx w, w))

  pub column_type : Column → Exec (Obj Statement W) ℤ
  column_type c = do handle ← gets (λ s. s.handle); call (api.column_type handle c.idx)

  pub decl_type : Column → Exec (Obj Statement W) (Option String)
  decl_type c = do
    handle ← gets (λ s. s.handle)
    call (λ w. (api.column_decltype handle c.idx w, w))
