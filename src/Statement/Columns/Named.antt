-- ===== src/Statement/Columns/Named.antt =====
-- statement.impl.hpp and column.impl.hpp: values by the name of their column, and by a column object.
use sqxx.Base.{ℕ, String, ◌≡◌, refl, some, List}
use sqxx.Base.Int.{ℤ, pos}
use sqxx.Effect.{Exec, Obj, ◌>>=◌}
use sqxx.Statement.{Statement, StmtApi}
use sqxx.Statement.Columns.{Column, col_index, col_named}
use sqxx.Statement.Columns.Table.{Answers}
use sqxx.Statement.Columns.Lookup.{HasColumns, IsCoherent, col_index-AnswersWith}

-- `read` is val<T>(int) for one of the types.
module _ {W D R : Type 0} (api : StmtApi W D) (read : ℤ → Exec (Obj Statement W) R) where
  -- val<T>(const char *name)
  unfoldable pub val_named : String → Exec (Obj Statement W) R
  val_named name = do idx ← col_index api name; read (pos idx)

  -- column::val<T>()
  unfoldable pub column_val : Column → Exec (Obj Statement W) R
  column_val c = read c.idx

  -- On a statement whose table is coherent with the names of its columns, a value that is read by name, or
  -- from the column object for the name, is the one at the index of a column with that name, or of the
  -- first column where none has it, read from the same row.
  pub val_named_lem :
      (names : List String) (text : String) (o : Obj Statement W)
      → HasColumns api o.self.handle o.world names
      → IsCoherent names o.self
      → (j : ℕ) × (s : Statement) × (val_named text o ≡ read (pos j) (record o { self = s }))
        × ((col_named api text >>= column_val) o ≡ read (pos j) (record o { self = s }))
        × Answers text names (some j)
        × IsCoherent names s
        × (s.handle ≡ o.self.handle)
  unfolding val_named column_val col_named
  val_named_lem names text o c h =
      let (j, s, e, a, k, same, _) = col_index-AnswersWith api names text o c h in
      (j, s, rw e refl, rw e refl, a, k, same)
