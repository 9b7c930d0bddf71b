-- ===== src/Session/Scope.antt =====
-- connection.cpp and statement.cpp in a scope of a program, such as `main` of examples/usage.cpp: the first
-- exception ends the scope, and what was made in it is destroyed, the newest object first.
use sqxx.Base.{ℕ, zero, suc, String, List, [], ◌∷◌, ◌≡◌, refl, sym, ap, true, false, none, some}
use sqxx.Base.Int.{pos}
use sqxx.Effect.{Exception, Outcome, returned, thrown, Exec, Obj}
use sqxx.Statement.{Handle, Statement, StmtApi}
use sqxx.Statement.Binding.{int, int64, text}
use sqxx.Statement.Methods.{Method, resets, clears, binds, loops, walks, vals_int, apply_method}
use sqxx.Connection
use sqxx.Connection.{Connection, OpenApi, closed, open_file}
use sqxx.Connection.Untouched.{open_file-thrown, destroy-closed}
use sqxx.Connection.Queries
use sqxx.Connection.Queries.{PrepareApi}
use sqxx.Session.{Call, prepares, calls, destroys, Session, perform, perform_all, destroy_all}
use sqxx.Session.Connected.{ProgramLaws, run_opened, run_program, run_program_lem}

abbrev ended : {A : Type 0} → Outcome A → Outcome (Unit {0})
ended (returned a) = returned tt
ended (thrown e) = thrown e

abbrev ended_on :
    {W : Type 0} → Exec (Obj Statement W) (Unit {0}) → ℕ → List Statement → W → Outcome (Unit {0})
ended_on m i [] w = returned tt
ended_on m zero (st ∷ objects) w = (m (record { self = st; world = w })).0
ended_on m (suc i) (st ∷ objects) w = ended_on m i objects w

abbrev chained : {R : Type 0} → Outcome (Unit {0}) → R → R → R
chained (returned _) rest last = rest
chained (thrown e) rest last = last

module _ {W D : Type 0} (api : PrepareApi W) (stmts : StmtApi W D) (conn : ℕ)
    (handle : Handle) where
  -- How a call ends.
  unfoldable pub outcome : Call D → Session W → Outcome (Unit {0})
  outcome (prepares sql) s = ended (Queries.prepare api stmts conn handle sql s.world).0
  outcome (Call.queries sql) s = ended (Queries.query api stmts conn handle sql s.world).0
  outcome (calls i m) s = ended_on (apply_method stmts m) i s.objects s.world
  outcome (destroys i) s = returned tt

  -- The calls up to the first that throws, which is among them.
  unfoldable pub until_throw : List (Call D) → Session W → List (Call D)
  until_throw [] s = []
  until_throw (c ∷ cs) s =
      let rest = until_throw cs (perform api stmts conn handle c s) in
      chained (outcome c s) (c ∷ rest) (c ∷ [])

  -- The body of the scope.
  unfoldable pub run_body : List (Call D) → Session W → Outcome (Unit {0}) × Session W
  unfolding outcome
  run_body [] s = (returned tt, s)
  run_body (c ∷ cs) s =
      let s' = perform api stmts conn handle c s in
      let rest = run_body cs s' in chained (outcome c s) rest (outcome c s, s')

  chained_lem :
      (c : Call D) (cs : List (Call D)) (s : Session W) (r : Outcome (Unit {0}))
      → let s' = perform api stmts conn handle c s in
        (run_body cs s').1 ≡ perform_all api stmts conn handle (until_throw cs s') s'
        → (chained r (run_body cs s') (r, s')).1
          ≡ perform_all api stmts conn handle (chained r (c ∷ until_throw cs s') (c ∷ [])) s
  unfolding perform_all
  chained_lem c cs s (returned u) e = e
  chained_lem c cs s (thrown x) e = refl

  run_body-until_throw :
      (cs : List (Call D)) (s : Session W)
      → (run_body cs s).1 ≡ perform_all api stmts conn handle (until_throw cs s) s
  unfolding run_body until_throw perform_all
  run_body-until_throw [] s = refl
  run_body-until_throw (c ∷ cs) s =
      chained_lem c cs s (outcome c s) (run_body-until_throw cs (perform api stmts conn handle c s))

module _ {W D : Type 0} (opening : OpenApi W) (api : PrepareApi W) (stmts : StmtApi W D)
    (conn : ℕ) where
  -- The scope once its connection is made, or not: an object whose constructor throws is not destroyed.
  unfoldable pub opened_scope :
      List (Call D) → Outcome (Unit {0}) × Obj Connection W → Outcome (Unit {0}) × W
  opened_scope cs (returned _, o) =
      let (r, s) =
        run_body api stmts conn o.self.handle cs (record { objects = []; world = o.world }) in
      (
        r,
        (Connection.destroy opening
            (record { self = o.self; world = destroy_all stmts s.objects s.world })).world,
      )
  opened_scope cs (thrown e, o) = (thrown e, o.world)

  -- { connection conn(file, flags); … }, and how it ends
  unfoldable pub run_scope : String → ℕ → List (Call D) → W → Outcome (Unit {0}) × W
  unfolding opened_scope
  run_scope file flags cs w =
      opened_scope cs (open_file opening file flags (record { self = closed; world = w }))

  -- A scope does what a program does with some of the calls.
  scope_lem :
      (cs : List (Call D)) (r : Outcome (Unit {0})) (o : Obj Connection W)
      → ((e : Exception) → r ≡ thrown e → o.self.handle ≡ none)
      → (some_cs : List (Call D)) × ((opened_scope cs (r, o)).1
          ≡ run_opened opening api stmts conn o some_cs)
  unfolding opened_scope run_opened perform_all destroy_all
  scope_lem cs (returned u) o f = (
    until_throw api stmts conn o.self.handle cs (record { objects = []; world = o.world }),
    ap
        (λ (s : Session W).
          (Connection.destroy opening
            (record { self = o.self; world = destroy_all stmts s.objects s.world })).world)
        (run_body-until_throw api stmts conn o.self.handle cs
          (record { objects = []; world = o.world })),
  )
  scope_lem cs (thrown e) o f = ([], sym (destroy-closed opening o (f e refl)))

module _ {W D : Type 0} (opening : OpenApi W) (api : PrepareApi W) (stmts : StmtApi W D)
    (laws : ProgramLaws opening api stmts) where
  -- For a sqlite3 that keeps databases and statements as documented: a scope that makes a connection and statements
  -- on it, and uses them in whatever way, leaves exactly those databases and those statements open
  -- that were open before, whether it comes to its end, or opening the database or any of the calls
  -- throws; and sqlite3 was never given a statement that is not open.
  pub run_scope_lem :
      (conn : ℕ) (file : String) (flags : ℕ) (cs : List (Call D)) (w : W)
      → laws.statements.strays w ≡ false
      → let w' = (run_scope opening api stmts conn file flags cs w).1 in
        ((q : ℕ) → laws.databases.is_open q w' ≡ laws.databases.is_open q w)
        × ((q : ℕ) → laws.statements.base.is_open w' q ≡ laws.statements.base.is_open w q)
        × (laws.statements.strays w' ≡ false)
  unfolding run_scope run_program
  run_scope_lem conn file flags cs w clean =
      let (r, o) = open_file opening file flags (record { self = closed; world = w }) in
      let (some_cs, same) = scope_lem opening api stmts conn cs r o (λ e thrown.
        open_file-thrown opening file flags e (record { self = closed; world = w }) thrown) in
      rw same (run_program_lem opening api stmts laws conn file flags some_cs w clean)

-- main() of examples/usage.cpp, with at most `fuel` tests of each of its loops. A temporary statement is destroyed
-- at once; the newest object is number 0.
abbrev pub usage : {D : Type 0} → ℕ → List (Call D)
usage fuel =
    Call.queries "create table items (id integer, value integer)"
    ∷ destroys 0
    ∷ Call.queries "insert into items (id, value) values (1, 11), (2, 22), (3, 33)"
    ∷ destroys 0
    ∷ Call.queries "select * from items where id = 1"
    ∷ calls 0 (vals_int (pos 0))
    ∷ calls 0 (vals_int (pos 1))
    ∷ Call.queries "select * from items"
    ∷ calls 0 (walks fuel (pos 0 ∷ pos 1 ∷ []))
    ∷ Call.queries "select * from items where id <= 2"
    ∷ calls 0 (loops fuel (pos 0 ∷ pos 1 ∷ []))
    ∷ prepares "select value from items where id = ?"
    ∷ calls 0 (binds (pos 0) (int (pos 2)))
    ∷ calls 0 Method.queries
    ∷ calls 0 (vals_int (pos 0))
    ∷ calls 0 resets
    ∷ calls 0 clears
    ∷ calls 0 (binds (pos 0) (text (some (51 ∷ [])) true))
    ∷ calls 0 Method.queries
    ∷ calls 0 (vals_int (pos 0))
    ∷ calls 0 resets
    ∷ calls 0 clears
    ∷ calls 0 (binds (pos 0) (int64 (pos 2)))
    ∷ calls 0 Method.queries
    ∷ calls 0 (vals_int (pos 0))
    ∷ []
