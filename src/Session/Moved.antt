-- ===== src/Session/Moved.antt =====
-- A statement object that was moved from, and its destructor.
use sqxx.Base.{ℕ, ◌≡◌, ◌∙◌, refl, true, some, ==_iff, arith}
use sqxx.Statement
use sqxx.Statement.{Statement, StmtApi}
use sqxx.Statement.Ownership.{destroy-move}
use sqxx.Connection.Queries.{PrepareApi}
use sqxx.Session.Laws.{SessionLaws}

module _ {W D : Type 0} (api : PrepareApi W) (stmts : StmtApi W D)
    (laws : SessionLaws api stmts) where
  -- For a sqlite3 that finalizes as documented: where a statement that is open is moved into another object,
  -- by the defaulted move, and both objects are destroyed, sqlite3 is given a statement that is no longer
  -- open, whatever calls came before.
  pub strays-move :
      (p : ℕ) (s : Statement) (w : W)
      → s.handle ≡ some p
      → laws.strays (
          Statement.destroy stmts
            (Statement.move s).1
            (Statement.destroy stmts (Statement.move s).0 w))
        ≡ true
  strays-move p s w h = rw (destroy-move stmts p s w h) (
      laws.finalized (some p) (stmts.finalize (some p) w).1
      ∙ ground (arith, laws.base.finalizes p w p, (==_iff p p).1 refl))
