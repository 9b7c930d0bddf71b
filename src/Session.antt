-- ===== src/Session.antt =====
-- A program that has one connection and any number of statement objects at a time: the statements that
-- it prepares, uses and destroys, over statement.cpp and connection.cpp together.
pub mod Laws
pub mod Accounts
pub mod Moved
pub mod Connected
pub mod Scope
use sqxx.Base.{ℕ, zero, suc, String, Option, none, some, List, [], ◌∷◌}
use sqxx.Effect.{Outcome, returned, thrown, Exec, Obj}
use sqxx.Statement
use sqxx.Statement.{Handle, Statement, StmtApi}
use sqxx.Statement.Methods.{Method, apply_method}
use sqxx.Connection.Queries
use sqxx.Connection.Queries.{PrepareApi}

-- The calls, on an object by its place in the list, the newest first. One at a place where there is no
-- object does nothing.
pub data Call (D : Type 0) : Type 0 where
  prepares queries : String → Call D
  calls : ℕ → Method D → Call D
  destroys : ℕ → Call D

pub record Session (W : Type 0) : Type 0 where
  pub objects : List Statement
  pub world : W

abbrev pub added : {W : Type 0} → List Statement → Outcome Statement × W → Session W
added objects (returned st, w) = record { objects = st ∷ objects; world = w }
added objects (thrown e, w) = record { objects = objects; world = w }

-- A method of the object at a place; an exception leaves the object as it is then.
abbrev pub on :
    {W : Type 0} → Exec (Obj Statement W) (Unit {0}) → ℕ → List Statement → W → Session W
on m i [] w = record { objects = []; world = w }
on m zero (st ∷ objects) w =
    let (r, o) = m (record { self = st; world = w }) in
    record { objects = o.self ∷ objects; world = o.world }
on m (suc i) (st ∷ objects) w =
    let s = on m i objects w in record { objects = st ∷ s.objects; world = s.world }

-- The end of the object's life.
abbrev pub without : {W : Type 0} → (Statement → W → W) → ℕ → List Statement → W → Session W
without end i [] w = record { objects = []; world = w }
without end zero (st ∷ objects) w = record { objects = objects; world = end st w }
without end (suc i) (st ∷ objects) w =
    let s = without end i objects w in record { objects = st ∷ s.objects; world = s.world }

module _ {W D : Type 0} (stmts : StmtApi W D) where
  -- The end of the program: the objects that are left are destroyed.
  unfoldable pub destroy_all : List Statement → W → W
  destroy_all [] w = w
  destroy_all (st ∷ objects) w = destroy_all objects (Statement.destroy stmts st w)

module _ {W D : Type 0} (api : PrepareApi W) (stmts : StmtApi W D) (conn : ℕ)
    (handle : Handle) where
  unfoldable pub perform : Call D → Session W → Session W
  perform (prepares sql) s = added s.objects (Queries.prepare api stmts conn handle sql s.world)
  perform (queries sql) s = added s.objects (Queries.query api stmts conn handle sql s.world)
  perform (calls i m) s = on (apply_method stmts m) i s.objects s.world
  perform (destroys i) s = without (Statement.destroy stmts) i s.objects s.world

  unfoldable pub perform_all : List (Call D) → Session W → Session W
  unfolding perform
  perform_all [] s = s
  perform_all (c ∷ cs) s = perform_all cs (perform c s)
