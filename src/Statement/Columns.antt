-- ===== src/Statement/Columns.antt =====
-- statement.cpp, the result columns: their number, the lookup table from names to indexes, and the
-- column object of column.cpp that is made from either.
mod Table
pub mod Lookup
pub mod Origin
pub mod Named
use sqxx.Base.{
  ℕ, zero, suc, ◌+◌, String, Bool, true, false, Option, none, some, List, [], ◌∷◌, if◌then◌else◌,
}
use sqxx.Base.Int.{ℤ, pos, negsuc, pos_part}
use sqxx.StdMap
use sqxx.Effect.{Code, std_exception, Exec, Obj, ◌>>=◌, ◌>>◌, pure, throw, call, gets, modify}
use sqxx.Statement.{Handle, Statement, StmtApi}

-- `std::string(const char*)` on a null pointer throws `std::logic_error`.
abbrev pub to_string : {S : Type 0} → Option String → Exec S String
to_string none = throw (std_exception "basic_string: construction from null")
to_string (some name) = pure name

-- `table[name]` as an expression on the mutable table.
unfoldable pub at_name : {W : Type 0} → String → Exec (Obj Statement W) ℕ
at_name name o =
    let (idx, table) = StdMap.index zero name o.self.col_index_table in
    pure idx (record o { self = record o.self { col_index_table = table } })

-- class column: the statement and an index.
pub record Column : Type 0 where
  pub idx : ℤ

module _ {W D : Type 0} (api : StmtApi W D) where
  unfoldable pub col_count : Exec (Obj Statement W) ℤ
  col_count = do handle ← gets (λ s. s.handle); call (λ w. (api.column_count handle w, w))

  -- column::name()
  unfoldable pub name : Column → Exec (Obj Statement W) (Option String)
  name c = do handle ← gets (λ s. s.handle); call (λ w. (api.column_name handle c.idx w, w))

  -- The loop over the columns from index `i`; the number is that of the rounds left.
  unfoldable pub fill : ℕ → ℕ → Exec (Obj Statement W) (Unit {0})
  unfolding name
  fill zero i = pure tt
  fill (suc rounds) i = do
    text ← name (record { idx = pos i })
    key ← to_string text
    modify (λ s. record s { col_index_table = StdMap.insert key i s.col_index_table })
    fill rounds (i + 1)

  unfoldable pub build_table : Exec (Obj Statement W) (Unit {0})
  unfolding col_count
  build_table = do
    n ← col_count
    fill (pos_part n) 0
    modify (λ s. record s { col_index_table_built = true })

  unfoldable pub col_index : String → Exec (Obj Statement W) ℕ
  unfolding at_name
  col_index text = do
    built ← gets (λ s. s.col_index_table_built)
    if built then pure tt else build_table
    at_name text

  -- column statement::col(int) and column statement::col(const char*)
  unfoldable pub col : ℤ → Exec (Obj Statement W) Column
  col idx = pure (record { idx = idx })

  unfoldable pub col_named : String → Exec (Obj Statement W) Column
  unfolding col
  col_named text = do idx ← col_index text; col (pos idx)
