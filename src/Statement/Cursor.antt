-- ===== src/Statement/Cursor.antt =====
-- statement.cpp and statement.hpp, execution and the row iterator together: what a program does with one
-- statement, and the cursor that the two amount to.
pub mod Refines
use mathlib.Core.Option
use sqxx.Base.{ℕ, Bool, true, false, Option, none, some, List, [], ◌∷◌, map, String, if◌then◌else◌}
use sqxx.Effect.{
  Code, sqlite_row, sqlite_done, Outcome, returned, thrown, error, Exec, Obj, ◌>>=◌, ◌>>◌, pure,
}
use sqxx.Statement.{Statement, StmtApi, step, run, query, next_row, reset}
use sqxx.Statement.Rows.{reading, for_each}
use sqxx.Statement.Rows.Visits.{number}

pub data Operation : Type 0 where
  runs queries next_rows resets loops : Operation

-- The rows that a range-based `for` visited, with their numbers; a row that is not there is `none`.
abbrev pub Seen : Type 0 → Type 0
Seen V = List (ℕ × Option V)

module _ {W D V : Type 0} (api : StmtApi W D) (read : W → Option V) (fuel : ℕ) where
  unfoldable pub operate : Operation → Exec (Obj Statement W) (Option (Seen V))
  operate runs = do run api; pure (some [])
  operate queries = do query api; pure (some [])
  operate next_rows = do next_row api; pure (some [])
  operate resets = do reset api; pure (some [])
  operate loops = for_each api (reading read) fuel

  unfoldable pub operate_all :
      List Operation → Obj Statement W → List (Outcome (Option (Seen V))) × Obj Statement W
  unfolding operate
  operate_all [] o = ([], o)
  operate_all (op ∷ ops) o =
      let (r, o') = operate op o in let (rs, last) = operate_all ops o' in (r ∷ rs, last)

-- What a query gives: its rows, and the code that comes after them.
pub record Script (V : Type 0) : Type 0 where
  pub rows : List V
  pub ending : Code

-- The row in hand, if there is one, the rows to come, and the answer of `done()`.
pub record Cursor (V : Type 0) : Type 0 where
  pub hand : Option V
  pub left : List V
  pub at_end : Bool

-- The abstract operations. After the last row the query starts again.
module _ {V : Type 0} (errstr : Code → String) (script : Script V) where
  abbrev pub ends : Code → Seen V → Bool → Outcome (Option (Seen V)) × Cursor V
  ends sqlite_done out b =
      (returned (some out), record { hand = none; left = script.rows; at_end = true })
  ends c out b =
      (thrown (error c (errstr c)), record { hand = none; left = script.rows; at_end = b })

  abbrev pub moves : List V → Bool → Outcome (Option (Seen V)) × Cursor V
  moves [] b = ends script.ending [] b
  moves (v ∷ vs) b = (returned (some []), record { hand = some v; left = vs; at_end = false })

  abbrev pub visits : Cursor V → Outcome (Option (Seen V)) × Cursor V
  visits c =
      if c.at_end
      then (returned (some []), c)
      else ends script.ending (number 0 (c.hand ∷ map some c.left)) false

  abbrev pub follow : Operation → Cursor V → Outcome (Option (Seen V)) × Cursor V
  follow loops c = visits c
  follow resets c = (returned (some []), record c { hand = none; left = script.rows })
  follow op c = moves c.left c.at_end

  unfoldable pub follow_all :
      List Operation → Cursor V → List (Outcome (Option (Seen V))) × Cursor V
  follow_all [] c = ([], c)
  follow_all (op ∷ ops) c =
      let (r, c') = follow op c in let (rs, last) = follow_all ops c' in (r ∷ rs, last)
