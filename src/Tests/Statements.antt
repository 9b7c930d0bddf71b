-- ===== src/Tests/Statements.antt =====
-- Statements: runs on the small sqlite3, and the theorems at them.
use sqxx.Base.{◌≡◌, refl, true, false, some, [], ◌∷◌, arith}
use sqxx.Base.Int.{pos}
use sqxx.Effect.{Obj, returned, ◌>>◌}
use sqxx.Statement.{Statement, run}
use sqxx.Statement.Rows.{reading, for_each}
use sqxx.Statement.Rows.Manual.{walk, unnumbered, walk-for_each}
use sqxx.Statement.Values.{val_int}
use sqxx.Statement.Rows.Visits.{stop, row, for_each-run}
use sqxx.Statement.Binding.{bind_named, bind_call, int}
use sqxx.Statement.Binding.Names.{bind_named_lem}
use sqxx.Statement.Columns.{col_index}
use sqxx.Statement.Columns.Lookup.{HasColumns, AnswersWith, col_index-AnswersWith}
use sqxx.Tests.StatementApi.{Sqlite, api, names, two_rows}

abbrev stmt : Statement
stmt = record {
  handle = some 7;
  conn = 0;
  completed = true;
  col_index_table_built = false;
  col_index_table = [];
}

abbrev at_start : Obj Statement Sqlite
at_start = record { self = stmt; world = two_rows }

for_each-run_example : (run api >> for_each api (reading (λ w. w.now)) 3) at_start ≡ (
  returned (some ((0, 5) ∷ (1, 6) ∷ [])),
  record { self = stmt; world = record two_rows { now = 6 } },
)
for_each-run_example =
    for_each-run api (λ w. w.now) 3 stmt (omega arith)
      (row refl refl (row refl refl (stop refl (λ e. cc))))

bind_named_lem_example :
    bind_named api ":y" (int (pos 4)) at_start
    ≡ (returned tt, record at_start { world = record two_rows { bound = pos 2 ∷ [] } })
unfolding bind_call
bind_named_lem_example = bind_named_lem api ":y" (int (pos 4)) at_start

abc : HasColumns api (some 7) two_rows names
abc = record { count = refl; name_at = λ i x e. e }

col_index-AnswersWith_example : AnswersWith names "b" at_start (col_index api "b" at_start)
col_index-AnswersWith_example = col_index-AnswersWith api names "b" at_start abc refl

abbrev at_row : Obj Statement Sqlite
at_row = record { self = record stmt { completed = false }; world = two_rows }

walk-for_each_example :
    walk api (val_int api (pos 0)) 4 at_row
    ≡ unnumbered api (val_int api (pos 0)) (for_each api (λ _. val_int api (pos 0)) 4 at_row)
walk-for_each_example = walk-for_each api (val_int api (pos 0)) 4 at_row
