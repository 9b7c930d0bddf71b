-- ===== src/Statement/Rows.antt =====
-- statement.hpp and statement.cpp, `statement::row_iterator` and the range-based `for` over it.
pub mod Visits
pub mod Manual
use mathlib.Core.Option
use sqxx.Base.{
  ℕ, zero, suc, ◌+◌, Bool, true, false, not, ◌&&◌, Option, none, some, List, [], ◌∷◌, if◌then◌else◌,
}
use sqxx.Effect.{Exec, Obj, ◌>>=◌, ◌>>◌, pure, call, gets}
use sqxx.Statement.{Statement, StmtApi, step}

-- `attached` says that the pointer to the statement is not null.
pub record RowIterator : Type 0 where
  pub attached : Bool
  pub rowidx : ℕ

unfoldable pub check_complete : Bool → RowIterator → RowIterator
check_complete completed it =
    if it.attached && completed then record it { attached = false } else it

-- A body that reads the current row, and changes nothing.
abbrev pub reading : {W V : Type 0} → (W → V) → ℕ → Exec (Obj Statement W) V
reading read i = call (λ w. (read w, w))

-- statement::begin(), the iterator's constructor on `this`
unfoldable pub begin : {W : Type 0} → Exec (Obj Statement W) RowIterator
unfolding check_complete
begin = do
  completed ← gets (λ s. s.completed)
  pure (check_complete completed (record { attached = true; rowidx = 0 }))

module _ {W D : Type 0} (api : StmtApi W D) where
  -- operator++
  unfoldable pub advance : RowIterator → Exec (Obj Statement W) RowIterator
  unfolding check_complete
  advance it = do
    step api
    completed ← gets (λ s. s.completed)
    let next = check_complete completed it
    pure (record next { rowidx = it.rowidx + 1 })

  -- `for (auto i : st) out.push_back({i, body(i)});` from the iterator on, with at most `fuel` tests
  -- of the loop, each of which compares with the null pointer of `end()`. The body may use the statement.
  unfoldable pub loop :
      {V : Type 0}
      → (ℕ → Exec (Obj Statement W) V)
      → ℕ
      → RowIterator
      → Exec (Obj Statement W) (Option (List (ℕ × V)))
  unfolding advance
  loop body zero it = pure none
  loop body (suc fuel) it = if not it.attached then pure (some []) else do
    v ← body it.rowidx
    next ← advance it
    rest ← loop body fuel next
    pure (Option.map (λ out. (it.rowidx, v) ∷ out) rest)

  unfoldable pub for_each :
      {V : Type 0}
      → (ℕ → Exec (Obj Statement W) V)
      → ℕ
      → Exec (Obj Statement W) (Option (List (ℕ × V)))
  unfolding begin loop
  for_each body fuel = do it ← begin; loop body fuel it
