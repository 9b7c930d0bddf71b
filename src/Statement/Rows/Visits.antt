-- ===== src/Statement/Rows/Visits.antt =====
-- Which rows the range-based `for` visits, and how it ends.
use mathlib.Core.Option
use sqxx.Base.{
  ℕ, zero, suc, ◌+◌, ◌<◌, ◌≡◌, ◌≢◌, ◌∙◌, refl, true, false, Option, some, List, [], ◌∷◌, length,
  arith,
}
use sqxx.Effect.{
  Code, sqlite_row, sqlite_done, Outcome, returned, thrown, Obj, static_error, error, continue,
  pure, ◌>>◌,
}
use sqxx.Statement.{Handle, Statement, StmtApi, step, run}
use sqxx.Statement.Rows.{reading, loop, for_each}

module _ {W D V : Type 0} (api : StmtApi W D) (h : Handle) (read : W → V) where
  -- From a state of sqlite3, its steps give these rows, read as they come, and then this code.
  pub data Yields : W → List V → Code → W → Type 0 where
    stop : {w w' : W} {c : Code} → api.step h w ≡ (c, w') → c ≢ sqlite_row → Yields w [] c w'
    row :
        {w w' w'' : W} {v : V} {vs : List V} {c : Code}
        → api.step h w ≡ (sqlite_row, w')
        → v ≡ read w'
        → Yields w' vs c w''
        → Yields w (v ∷ vs) c w''

abbrev pub number : {V : Type 0} → ℕ → List V → List (ℕ × V)
number i [] = []
number i (v ∷ vs) = (i, v) ∷ number (i + 1) vs

-- The statement while it has a row.
abbrev pub live : Statement → Statement
live s = record s { completed = false }

module _ {W D V : Type 0} (api : StmtApi W D) where
  -- What is left of a loop whose last step gave `c`: all rows where that is SQLITE_DONE, and
  -- otherwise the exception for the code, with `done()` as it was.
  abbrev pub ended :
      Code → List (ℕ × V) → Statement → W → Outcome (Option (List (ℕ × V))) × Obj Statement W
  ended sqlite_done out s w =
      (returned (some out), record { self = record s { completed = true }; world = w })
  ended c out s w = (thrown (static_error api.errstr c), record { self = s; world = w })

  -- One row in hand and a step that gives no other.
  last_row :
      (read : W → V) (i k : ℕ) (s : Statement) (w w' : W) (c : Code)
      → api.step s.handle w ≡ (c, w')
      → c ≢ sqlite_row
      → loop api
          (reading read)
          (suc (suc k))
          (record { attached = true; rowidx = i })
          (record { self = live s; world = w })
        ≡ ended c ((i, read w) ∷ []) (live s) w'
  unfolding loop step
  last_row read i k s w w' sqlite_row e n = absurd (n refl)
  last_row read i k s w w' sqlite_done e n = rw (e)
  last_row read i k s w w' c e n = rw (e)

  prepend-ended :
      (x : ℕ × V) (out : List (ℕ × V)) (c : Code) (s : Statement) (w : W)
      → continue
          (ended c out s w).0
          (λ rest. pure (Option.map (λ t. x ∷ t) rest))
          (ended c out s w).1
        ≡ ended c (x ∷ out) s w
  prepend-ended x out sqlite_done s w = refl
  prepend-ended x out c s w = refl

  loop_lem :
      (read : W → V) (i fuel : ℕ) (s : Statement) {w w' : W} {vs : List V} {c : Code}
      → length vs + 1 < fuel
      → Yields api s.handle read w vs c w'
      → loop api
          (reading read)
          fuel
          (record { attached = true; rowidx = i })
          (record { self = live s; world = w })
        ≡ ended c ((i, read w) ∷ number (i + 1) vs) (live s) w'
  unfolding loop step
  loop_lem read i zero s f y = absurd (omega arith)
  loop_lem read i (suc zero) s f y = absurd (omega arith)
  loop_lem read i (suc (suc k)) s f (stop {w = w} {w' = w'} {c = c} e n) =
      last_row read i k s w w' c e n
  loop_lem read i (suc (suc k)) s {w = w} f (row e v y) =
      rw (e, loop_lem read (i + 1) (suc k) s (omega arith) y, v)
        (prepend-ended (i, read w) _ _ (live s) _)

  -- A `for` over a statement that has a row in hand.
  pub for_each-live :
      (read : W → V) (fuel : ℕ) (s : Statement) {w w' : W} {vs : List V} {c : Code}
      → length vs + 1 < fuel
      → Yields api s.handle read w vs c w'
      → for_each api (reading read) fuel (record { self = live s; world = w })
        ≡ ended c (number 0 (read w ∷ vs)) (live s) w'
  unfolding for_each
  for_each-live read fuel s f y = loop_lem read 0 fuel s f y

  -- And over one that is done.
  pub for_each-done :
      (read : W → V) (fuel : ℕ) (o : Obj Statement W)
      → o.self.completed ≡ true
      → for_each api (reading read) (suc fuel) o ≡ (returned (some []), o)
  unfolding for_each loop
  for_each-done read fuel o e = rw e refl

  -- `run()` and then a `for` over the statement, on a statement in any state: from a state of
  -- sqlite3 whose steps give rows and then SQLITE_DONE, and with more fuel than rows, the loop ends,
  -- it visits exactly those rows, in their order, numbered from 0, and `done()` is then true.
  pub for_each-run :
      (read : W → V) (fuel : ℕ) (s : Statement) {w w' : W} {vs : List V}
      → length vs < fuel
      → Yields api s.handle read w vs sqlite_done w'
      → (run api >> for_each api (reading read) fuel) (record { self = s; world = w }) ≡ (
        returned (some (number 0 vs)),
        record { self = record s { completed = true }; world = w' },
      )
  unfolding run for_each
  for_each-run read zero s f y = absurd (omega arith)
  for_each-run read (suc k) s f (stop e n) = rw e
  for_each-run read (suc k) s f (row e v y) = rw (e, loop_lem read 0 (suc k) s (omega arith) y, v)

  ended-ne-done :
      (out : List (ℕ × V)) (c : Code) (s : Statement) (w : W)
      → c ≢ sqlite_done
      → ended c out s w ≡ (thrown (error c (api.errstr c)), record { self = s; world = w })
  ended-ne-done out sqlite_done s w n = absurd (n refl)
  ended-ne-done out c s w n = refl

  -- The same where the steps give at least one row and then a code that is neither SQLITE_ROW nor
  -- SQLITE_DONE: the loop throws that code with its text, and `done()` stays false.
  pub for_each-run_fails :
      (read : W → V) (fuel : ℕ) (s : Statement) {w w' : W} {v : V} {vs : List V} {c : Code}
      → length vs + 1 < fuel
      → Yields api s.handle read w (v ∷ vs) c w'
      → c ≢ sqlite_done
      → (run api >> for_each api (reading read) fuel) (record { self = s; world = w })
        ≡ (thrown (error c (api.errstr c)), record { self = live s; world = w' })
  unfolding run for_each
  for_each-run_fails read fuel s f (row e v y) n =
      rw e (loop_lem read 0 fuel s f y ∙ ended-ne-done _ _ (live s) _ n)
