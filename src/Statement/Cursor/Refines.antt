-- ===== src/Statement/Cursor/Refines.antt =====
-- The statement object over sqlite3 does what its cursor does, whatever is done with it.
use mathlib.Core.Path.{subst}
use sqxx.Base.{
  ℕ, zero, suc, ◌≡◌, ◌≢◌, ◌≤◌, ◌<◌, ◌+◌, refl, sym, ap, Bool, true, false, Option, none, some, List,
  [], ◌∷◌, map, length, arith,
}
use sqxx.Effect.{Code, sqlite_row, sqlite_done, Outcome, returned, Obj, ◌>>◌, pure}
use sqxx.Statement.{Handle, Statement, StmtApi, after_step, step, run, query, next_row, reset}
use sqxx.Statement.Rows.{reading, for_each}
use sqxx.Statement.Rows.Visits.{
  Yields, stop, row, number, live, ended, for_each-live, for_each-done,
}
use sqxx.Statement.Cursor.{
  Operation, runs, queries, next_rows, resets, loops, Seen, Script, Cursor, operate, operate_all,
  ends, moves, visits, follow, follow_all,
}

-- What sqlite3 documents of a statement without new bindings: a step gives the next row, and after
-- the last one the code that ends the query, which then starts again at the next step, as it
-- does after sqlite3_reset.
pub record CursorLaws {W D V : Type 0} (api : StmtApi W D) (read : W → Option V) (h : Handle)
    (script : Script V) : Type 0 where
  pub left : W → List V
  pub next :
      (w : W) (v : V) (vs : List V)
      → left w ≡ v ∷ vs
      → let (c, w') = api.step h w in (c ≡ sqlite_row) × (left w' ≡ vs) × (read w' ≡ some v)
  pub last :
      (w : W)
      → left w ≡ []
      → let (c, w') = api.step h w in
        (c ≡ script.ending) × (left w' ≡ script.rows) × (read w' ≡ none)
  pub resets : (w : W) → let (c, w') = api.reset h w in (left w' ≡ script.rows) × (read w' ≡ none)
  pub ending : script.ending ≢ sqlite_row

module _ {W D V : Type 0} (api : StmtApi W D) (read : W → Option V) (h : Handle) (script : Script V)
    (laws : CursorLaws api read h script) where
  pub record Shows (c : Cursor V) (o : Obj Statement W) : Type 0 where
    pub same : o.self.handle ≡ h
    pub hand : read o.world ≡ c.hand
    pub left : laws.left o.world ≡ c.left
    pub at_end : o.self.completed ≡ c.at_end
    pub short : length c.left ≤ length script.rows

  -- The two results are the same, and the object shows the cursor.
  abbrev Agrees : {R : Type 0} → Outcome R × Obj Statement W → Outcome R × Cursor V → Type 0
  Agrees (r, o) (r', c) = (r ≡ r') × Shows c o

  -- The end of a query, with what it shows of the state.
  after_last :
      (code : Code) (b : Bool) (s : Statement) (w : W)
      → code ≢ sqlite_row
      → s.handle ≡ h
      → s.completed ≡ b
      → (laws.left w ≡ script.rows) × (read w ≡ none)
      → Agrees
          ((after_step api code >> pure (some [])) (record { self = s; world = w }))
          (ends api.errstr script code [] b)
  unfolding after_step
  after_last sqlite_row b s w n same done (left, hand) = absurd (n refl)
  after_last sqlite_done b s w n same done (left, hand) =
      (refl, record { same = same; hand = hand; left = left; at_end = refl; short = omega arith })
  after_last _ b s w n same done (left, hand) =
      (refl, record { same = same; hand = hand; left = left; at_end = done; short = omega arith })

  last_at :
      (k : Handle) (w : W)
      → k ≡ h
      → laws.left w ≡ []
      → let (c, w') = api.step k w in
        (c ≡ script.ending) × (laws.left w' ≡ script.rows) × (read w' ≡ none)
  last_at k w e left = rw e (laws.last w left)

  next_at :
      (k : Handle) (w : W) (v : V) (vs : List V)
      → k ≡ h
      → laws.left w ≡ v ∷ vs
      → let (c, w') = api.step k w in (c ≡ sqlite_row) × (laws.left w' ≡ vs) × (read w' ≡ some v)
  next_at k w v vs e left = rw e (laws.next w v vs left)

  moves_lem :
      (vs : List V) (b : Bool) (o : Obj Statement W)
      → o.self.handle ≡ h
      → laws.left o.world ≡ vs
      → o.self.completed ≡ b
      → length vs ≤ length script.rows
      → Agrees ((step api >> pure (some [])) o) (moves api.errstr script vs b)
  unfolding step after_step
  moves_lem [] b o same left done short =
      let (code, rest, gone) = last_at o.self.handle o.world same left in
      rw code (after_last script.ending b o.self _ laws.ending same done (rest, gone))
  moves_lem (v ∷ vs) b o same left done short =
      let (code, rest, hand) = next_at o.self.handle o.world v vs same left in
      rw code
        (moved o.self (api.step o.self.handle o.world).1 same hand rest (omega (arith, short)))
    where
      moved :
          (s : Statement) (w : W)
          → s.handle ≡ h
          → read w ≡ some v
          → laws.left w ≡ vs
          → length vs ≤ length script.rows
          → Agrees {R = Option (Seen V)}
              ((after_step api sqlite_row >> pure (some [])) (record { self = s; world = w }))
              (returned (some []), record { hand = some v; left = vs; at_end = false })
      moved s w same hand left short =
          (refl, record { same = same; hand = hand; left = left; at_end = refl; short = short })

  -- The steps from a state are the rows to come and the end of the query.
  yields_lem :
      (vs : List V) (w : W)
      → laws.left w ≡ vs
      → (w' : W) × Yields api h read w (map some vs) script.ending w'
        × (laws.left w' ≡ script.rows)
        × (read w' ≡ none)
  yields_lem [] w left =
      let (code, rest, gone) = laws.last w left in
      ((api.step h w).1, stop (ap (λ c. (c, (api.step h w).1)) code) laws.ending, rest, gone)
  yields_lem (v ∷ vs) w left =
      let (code, rest, hand) = laws.next w v vs left in
      let (w', y, fresh, gone) = yields_lem vs (api.step h w).1 rest in
      (w', row (ap (λ c. (c, (api.step h w).1)) code) (sym hand) y, fresh, gone)

  -- What the loop left behind, and what the cursor says.
  ended_lem :
      (code : Code) (out : Seen V) (s : Statement) (w : W)
      → code ≢ sqlite_row
      → s.handle ≡ h
      → laws.left w ≡ script.rows
      → read w ≡ none
      → Agrees (ended api code out (live s) w) (ends api.errstr script code out false)
  ended_lem sqlite_row out s w n same left hand = absurd (n refl)
  ended_lem sqlite_done out s w n same left hand =
      (refl, record { same = same; hand = hand; left = left; at_end = refl; short = omega arith })
  ended_lem _ out s w n same left hand =
      (refl, record { same = same; hand = hand; left = left; at_end = refl; short = omega arith })

  length-some : (vs : List V) → length (map (λ v. some v) vs) ≡ length vs
  length-some [] = refl
  length-some (v ∷ vs) = ap suc (length-some vs)

  loops_lem :
      (fuel : ℕ) (vs : List V) (s : Statement) (w : W)
      → length script.rows + 1 < fuel
      → s.handle ≡ h
      → laws.left w ≡ vs
      → length vs ≤ length script.rows
      → Agrees
          (for_each api (reading read) fuel (record { self = live s; world = w }))
          (ends api.errstr script script.ending (number 0 (read w ∷ map some vs)) false)
  loops_lem fuel vs s w f same left short =
      let (w', y, fresh, gone) = yields_lem vs w left in
      rw
        (for_each-live api read fuel s {w = w} {w' = w'} {vs = map some vs} {c = script.ending}
          (omega (arith, length-some vs)) (rw same y))
        (ended_lem script.ending _ s w' laws.ending same fresh gone)

  visits_lem :
      (fuel : ℕ) (hand : Option V) (left : List V) (b : Bool) (o : Obj Statement W)
      → length script.rows + 1 < fuel
      → let c : Cursor V = record { hand = hand; left = left; at_end = b } in
        Shows c o → Agrees (for_each api (reading read) fuel o) (visits api.errstr script c)
  visits_lem zero hand left b o f v = absurd (omega arith)
  visits_lem (suc fuel) hand left true o f v = rw (for_each-done api read fuel o v.at_end) (refl, v)
  visits_lem (suc fuel) hand left false o f v =
      subst (λ x. Agrees (for_each api (reading read) (suc fuel) x) result)
        (λ i. record { self = record o.self { completed = sym v.at_end i }; world = o.world })
        (subst
          (λ x.
            Agrees
              (for_each api (reading read) (suc fuel)
                (record { self = live o.self; world = o.world }))
              (ends api.errstr script script.ending (number 0 (x ∷ map some left)) false))
          v.hand (loops_lem (suc fuel) left o.self o.world f v.same v.left v.short))
    where
      result : Outcome (Option (Seen V)) × Cursor V
      result = visits api.errstr script (record { hand = hand; left = left; at_end = false })

  operate_lem :
      (fuel : ℕ) (op : Operation) (c : Cursor V) (o : Obj Statement W)
      → length script.rows + 1 < fuel
      → Shows c o
      → Agrees (operate api read fuel op o) (follow api.errstr script op c)
  unfolding operate run query next_row reset
  operate_lem fuel runs c o f v = moves_lem c.left c.at_end o v.same v.left v.at_end v.short
  operate_lem fuel queries c o f v = moves_lem c.left c.at_end o v.same v.left v.at_end v.short
  operate_lem fuel next_rows c o f v = moves_lem c.left c.at_end o v.same v.left v.at_end v.short
  operate_lem fuel resets c o f v =
      let (left, gone) = reset_at o.self.handle o.world v.same in
      (
        refl,
        record { same = v.same; hand = gone; left = left; at_end = v.at_end; short = omega arith },
      )
    where
      reset_at :
          (k : Handle) (w : W)
          → k ≡ h
          → let (_, w') = api.reset k w in (laws.left w' ≡ script.rows) × (read w' ≡ none)
      reset_at k w e = rw e (laws.resets w)
  operate_lem fuel loops c o f v = visits_lem fuel c.hand c.left c.at_end o f v

  -- For a sqlite3 that steps and resets as documented, and with fuel for at least two more tests of a loop
  -- than the query has rows: whatever `run()`, `query()`, `next_row()`, `reset()` and range-based
  -- `for` a program does with a statement, in whatever order, and however often the query ends, in
  -- SQLITE_DONE or in an error, each call gives what the cursor's does, and the row in hand, the rows
  -- to come and `done()` are those of the cursor. So a `for` that follows a `reset()` of an
  -- unfinished query begins with a row that is not there.
  pub operate_all-refines :
      (fuel : ℕ) (ops : List Operation) (c : Cursor V) (o : Obj Statement W)
      → length script.rows + 1 < fuel
      → Shows c o
      → let (rs, o') = operate_all api read fuel ops o in
        let (rs', c') = follow_all api.errstr script ops c in (rs ≡ rs') × Shows c' o'
  unfolding operate_all follow_all
  operate_all-refines fuel [] c o f v = (refl, v)
  operate_all-refines fuel (op ∷ ops) c o f v =
      let (r, next) = operate_lem fuel op c o f v in
      let (rs, last) = operate_all-refines fuel ops _ _ f next in (λ i. r i ∷ rs i, last)
