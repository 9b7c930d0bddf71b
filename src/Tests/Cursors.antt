-- ===== src/Tests/Cursors.antt =====
-- A query of two rows that ends in an error, and the theorem at it.
use sqxx.Base.{
  ℕ, ◌≡◌, ◌≢◌, refl, true, false, Option, none, some, List, [], ◌∷◌, if◌then◌else◌, arith,
}
use sqxx.Effect.{sqlite_abort, sqlite_row, Obj, returned, thrown, error}
use sqxx.Statement.{Statement, StmtApi, init}
use sqxx.Statement.Cursor.{
  Operation, runs, queries, next_rows, resets, loops, Script, Cursor, operate_all, follow_all,
}
use sqxx.Statement.Cursor.Refines.{CursorLaws, Shows, operate_all-refines}
use sqxx.Tests.StatementApi.{Sqlite, api, rows, step_rows, two_rows}

abbrev aborting : StmtApi Sqlite ℕ
aborting = record api { step = λ h w. step_rows sqlite_abort w.rest w }

abbrev in_hand : Sqlite → Option ℕ
in_hand w = if w.held then some w.now else none

abbrev script : Script ℕ
script = record { rows = rows; ending = sqlite_abort }

next_lem :
    (l : List ℕ) (w : Sqlite) (v : ℕ) (vs : List ℕ)
    → l ≡ v ∷ vs
    → let (c, w') = step_rows sqlite_abort l w in
      (c ≡ sqlite_row) × (w'.rest ≡ vs) × (in_hand w' ≡ some v)
next_lem [] w v vs e = absurd (cc)
next_lem (n ∷ l) w v vs e = (refl, cc, cc)

last_lem :
    (l : List ℕ) (w : Sqlite)
    → l ≡ []
    → let (c, w') = step_rows sqlite_abort l w in
      (c ≡ sqlite_abort) × (w'.rest ≡ rows) × (in_hand w' ≡ none)
last_lem [] w e = (refl, refl, refl)
last_lem (n ∷ l) w e = absurd (cc)

abort-ne-row : sqlite_abort ≢ sqlite_row
abort-ne-row e = cc

abbrev aborting-CursorLaws : CursorLaws aborting in_hand (some 7) script
aborting-CursorLaws = record {
  left = λ w. w.rest;
  next = λ w v vs e. next_lem w.rest w v vs e;
  last = λ w e. last_lem w.rest w e;
  resets = λ w. (refl, refl);
  ending = abort-ne-row;
}

abbrev operations : List Operation
operations = runs ∷ loops ∷ queries ∷ next_rows ∷ resets ∷ loops ∷ []

abbrev at_start : Obj Statement Sqlite
at_start = record { self = init 0 (some 7); world = two_rows }

abbrev cursor : Cursor ℕ
cursor = record { hand = none; left = rows; at_end = true }

operate_all-refines_example :
    let (rs, o) = operate_all aborting in_hand 9 operations at_start in
    (rs
      ≡ returned (some [])
        ∷ thrown (error sqlite_abort "error")
        ∷ returned (some [])
        ∷ returned (some [])
        ∷ returned (some [])
        ∷ thrown (error sqlite_abort "error")
        ∷ [])
    × Shows aborting in_hand
        (some 7)
        script
        aborting-CursorLaws
        (record { hand = none; left = rows; at_end = false })
        o
unfolding init follow_all
operate_all-refines_example =
    operate_all-refines aborting in_hand (some 7) script aborting-CursorLaws 9 operations cursor
      at_start (omega arith)
      (record { same = refl; hand = refl; left = refl; at_end = refl; short = omega arith })
