-- ===== src/Session/Connected.antt =====
-- A whole program: a connection that is opened, the statements on it, and the end of both.
use sqxx.Base.{ℕ, zero, suc, ◌≡◌, ◌∙◌, refl, ap, String, false, none, some, List, [], ◌∷◌}
use sqxx.Effect.{Outcome, returned, thrown, Exec, Obj}
use sqxx.Statement
use sqxx.Statement.{Handle, Statement, StmtApi}
use sqxx.Statement.Ownership.{destroy-none, destroy-some}
use sqxx.Statement.Methods.{Native, invoke, apply_method}
use sqxx.Statement.Methods.Frame.{Frame}
use sqxx.Statement.Methods.Framed.{apply_method-Within}
use sqxx.Connection
use sqxx.Connection.{Connection, OpenApi, closed, open_file}
use sqxx.Connection.Accounts.{OpenLaws, open_file-Accounts, destroy-Accounts, begin-Accounts}
use sqxx.Connection.Untouched.{open_file-same, destroy_connection-same}
use sqxx.Connection.Queries
use sqxx.Connection.Queries.{PrepareApi}
use sqxx.Connection.Queries.Unwinding.{query-same}
use sqxx.Session.{
  Call, prepares, queries, calls, destroys, Session, added, on, without, perform, perform_all,
  destroy_all,
}
use sqxx.Session.Laws.{SessionLaws}
use sqxx.Session.Accounts.Programs.{destroy_all-perform_all}

-- What the calls on statements do not change: `f` is a thing that sqlite3 could be asked.
pub record Ignores {W D A : Type 0} (api : PrepareApi W) (stmts : StmtApi W D) (f : W → A)
    : Type 0 where
  pub prepares : (h : Handle) (sql : String) (w : W) → f (api.prepare_v2 h sql w).2 ≡ f w
  pub invokes : (c : Native D) (h : Handle) (w : W) → f (invoke stmts c h w) ≡ f w
  pub finalizes : (h : Handle) (w : W) → f (stmts.finalize h w).1 ≡ f w

module _ {W D A : Type 0} (api : PrepareApi W) (stmts : StmtApi W D) (f : W → A)
    (ignores : Ignores api stmts f) where
  destroy-same : (st : Statement) (w : W) → f (Statement.destroy stmts st w) ≡ f w
  destroy-same st w = go st.handle refl
    where
      go : (h : Handle) → st.handle ≡ h → f (Statement.destroy stmts st w) ≡ f w
      go none e = ap f (destroy-none stmts w st e)
      go (some p) e = ap f (destroy-some stmts p w st e) ∙ ignores.finalizes (some p) w

  on-same :
      (m : Exec (Obj Statement W) (Unit {0})) (i : ℕ) (objects : List Statement) (w : W)
      → ((o : Obj Statement W) → f (m o).1.world ≡ f o.world)
      → f (on m i objects w).world ≡ f w
  on-same m i [] w same = refl
  on-same m zero (st ∷ objects) w same = same (record { self = st; world = w })
  on-same m (suc i) (st ∷ objects) w same = on-same m i objects w same

  without-same :
      (i : ℕ) (objects : List Statement) (w : W)
      → f (without (Statement.destroy stmts) i objects w).world ≡ f w
  without-same i [] w = refl
  without-same zero (st ∷ objects) w = destroy-same st w
  without-same (suc i) (st ∷ objects) w = without-same i objects w

  added-world :
      (objects : List Statement) (r : Outcome Statement × W) → (added objects r).world ≡ r.1
  added-world objects (returned st, w) = refl
  added-world objects (thrown e, w) = refl

  same-Frame : Frame stmts (λ (o o' : Obj Statement W). f o'.world ≡ f o.world)
  same-Frame = record {
    and_then = λ p q. q ∙ p;
    kept = λ o s e. refl;
    invoked = λ c o. ignores.invokes c o.self.handle o.world;
  }

  perform-same :
      (conn : ℕ) (handle : Handle) (c : Call D) (s : Session W)
      → f (perform api stmts conn handle c s).world ≡ f s.world
  unfolding perform Queries.prepare Statement.run
  perform-same conn handle (prepares sql) s =
      ap f (added-world s.objects _) ∙ ignores.prepares handle sql s.world
  perform-same conn handle (queries sql) s =
      ap f (added-world s.objects _)
      ∙ query-same api stmts f conn handle sql s.world (ignores.prepares handle sql s.world)
          (ignores.invokes Native.steps _ _) (λ st e. destroy-same st _)
  perform-same conn handle (calls i m) s =
      on-same (apply_method stmts m) i s.objects s.world
        (apply_method-Within stmts (λ o o'. f o'.world ≡ f o.world) same-Frame m)
  perform-same conn handle (destroys i) s = without-same i s.objects s.world

  perform_all-same :
      (conn : ℕ) (handle : Handle) (cs : List (Call D)) (s : Session W)
      → f (perform_all api stmts conn handle cs s).world ≡ f s.world
  unfolding perform_all
  perform_all-same conn handle [] s = refl
  perform_all-same conn handle (c ∷ cs) s =
      perform_all-same conn handle cs _ ∙ perform-same conn handle c s

  destroy_all-same : (objects : List Statement) (w : W) → f (destroy_all stmts objects w) ≡ f w
  unfolding destroy_all
  destroy_all-same [] w = refl
  destroy_all-same (st ∷ objects) w = destroy_all-same objects _ ∙ destroy-same st w

-- What sqlite3 documents, and that databases and statements are apart: preparing, stepping, resetting and
-- finalizing open and close no database, and opening and closing a database no statement. One that is closed
-- by sqlite3_close_v2 while it has statements stays in memory until they are finalized, but is not open.
pub record ProgramLaws {W D : Type 0} (opening : OpenApi W) (api : PrepareApi W)
    (stmts : StmtApi W D) : Type 0 where
  pub databases : OpenLaws opening
  pub statements : SessionLaws api stmts
  pub apart : (q : ℕ) → Ignores api stmts (λ w. databases.is_open q w)
  pub opens_none :
      (file : String) (flags q : ℕ) (w : W)
      → statements.base.is_open (opening.open_v2 file flags w).2 q ≡ statements.base.is_open w q
  pub closes_none :
      (h : Handle) (q : ℕ) (w : W)
      → statements.base.is_open (opening.close_v2 h w) q ≡ statements.base.is_open w q
  pub opens_clean :
      (file : String) (flags : ℕ) (w : W)
      → statements.strays (opening.open_v2 file flags w).2 ≡ statements.strays w
  pub closes_clean :
      (h : Handle) (w : W) → statements.strays (opening.close_v2 h w) ≡ statements.strays w

module _ {W D : Type 0} (opening : OpenApi W) (api : PrepareApi W) (stmts : StmtApi W D) where
  -- Calls on statements of a connection; then the statements that are left are destroyed, and the connection
  -- last, as C++ destroys what was made in a scope.
  unfoldable pub run_opened : ℕ → Obj Connection W → List (Call D) → W
  run_opened conn o cs =
      let s =
        perform_all api stmts conn o.self.handle cs (record { objects = []; world = o.world }) in
      (Connection.destroy opening
        (record { self = o.self; world = destroy_all stmts s.objects s.world })).world

  -- `connection conn; conn.open(file, flags);`, then those calls, also where opening it has thrown and the
  -- program goes on with an object that is closed.
  unfoldable pub run_program : ℕ → String → ℕ → List (Call D) → W → W
  unfolding run_opened
  run_program conn file flags cs w =
      run_opened conn (open_file opening file flags (record { self = closed; world = w })).1 cs

module _ {W D : Type 0} (opening : OpenApi W) (api : PrepareApi W) (stmts : StmtApi W D)
    (laws : ProgramLaws opening api stmts) where
  databases_lem :
      (conn : ℕ) (file : String) (flags : ℕ) (cs : List (Call D)) (w : W) (q : ℕ)
      → laws.databases.is_open q (run_program opening api stmts conn file flags cs w)
        ≡ laws.databases.is_open q w
  unfolding run_program
  databases_lem conn file flags cs w q =
      let others = λ (t : ℕ). laws.databases.is_open t w in
      let o = (open_file opening file flags (record { self = closed; world = w })).1 in
      let v =
        open_file-Accounts opening laws.databases others file flags
          (record { self = closed; world = w }) refl (begin-Accounts opening laws.databases w) in
      let s =
        perform_all api stmts conn o.self.handle cs (record { objects = []; world = o.world }) in
      let kept = λ (t : ℕ).
        destroy_all-same api stmts (λ x. laws.databases.is_open t x) (laws.apart t) s.objects
          s.world
        ∙ perform_all-same api stmts (λ x. laws.databases.is_open t x) (laws.apart t) conn
            o.self.handle cs (record { objects = []; world = o.world }) in
      destroy-Accounts opening laws.databases others
        (record { self = o.self; world = destroy_all stmts s.objects s.world })
        (record { all = λ t. kept t ∙ v.all t; apart = v.apart }) q

  -- For a sqlite3 that keeps databases and statements as documented: a program that opens a connection, works
  -- with statements on it, in whatever way and with whatever errors, also after opening has failed,
  -- destroys the statements that it has left, and then the connection, leaves exactly those databases and
  -- those statements open that were open before; and sqlite3 was never given a statement that is not
  -- open.
  pub run_program_lem :
      (conn : ℕ) (file : String) (flags : ℕ) (cs : List (Call D)) (w : W)
      → laws.statements.strays w ≡ false
      → let w' = run_program opening api stmts conn file flags cs w in
        ((q : ℕ) → laws.databases.is_open q w' ≡ laws.databases.is_open q w)
        × ((q : ℕ) → laws.statements.base.is_open w' q ≡ laws.statements.base.is_open w q)
        × (laws.statements.strays w' ≡ false)
  unfolding run_program
  run_program_lem conn file flags cs w clean =
      let begun : Obj Connection W = record { self = closed; world = w } in
      let o = (open_file opening file flags begun).1 in
      let s =
        perform_all api stmts conn o.self.handle cs (record { objects = []; world = o.world }) in
      let last : Obj Connection W = record {
        self = o.self;
        world = destroy_all stmts s.objects s.world;
      } in
      let (opened, unstrayed) =
        destroy_all-perform_all api stmts laws.statements conn o.self.handle cs o.world (
          open_file-same opening laws.statements.strays laws.opens_clean laws.closes_clean file
            flags begun
          ∙ clean) in
      (
        databases_lem conn file flags cs w,
        λ q.
            destroy_connection-same opening (λ x. laws.statements.base.is_open x q)
              (λ h x. laws.closes_none h q x) last
            ∙ opened q
            ∙ open_file-same opening (λ x. laws.statements.base.is_open x q)
                (λ fi fl x. laws.opens_none fi fl q x) (λ h x. laws.closes_none h q x) file flags
                begun,
        destroy_connection-same opening laws.statements.strays laws.closes_clean last ∙ unstrayed,
      )
