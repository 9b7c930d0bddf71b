-- ===== src/Session/Laws.antt =====
-- What sqlite3 documents of the statements that are open.
use sqxx.Base.{ℕ, ◌≡◌, String, Bool, true, not, ◌||◌, none, some}
use sqxx.Statement.{Handle, StmtApi}
use sqxx.Statement.Methods.{Native, invoke}
use sqxx.Connection.Queries.{PrepareApi}
use sqxx.Connection.Queries.Unwinding.{PrepareLaws}

-- A pointer that a call may be given: to an open statement, or null, which the calls below refuse or pass over.
abbrev pub is_fit : (ℕ → Bool) → Handle → Bool
is_fit opened none = true
is_fit opened (some p) = opened p

-- Besides PrepareLaws: the calls of statement.cpp on a statement close none. `strays` says that a call was
-- given a pointer to a statement that is not open, of which sqlite3 says nothing.
pub record SessionLaws {W D : Type 0} (api : PrepareApi W) (stmts : StmtApi W D) : Type 0 where
  pub base : PrepareLaws api stmts
  pub closes_none :
      (c : Native D) (h : Handle) (w : W) (q : ℕ)
      → base.is_open (invoke stmts c h w) q ≡ base.is_open w q
  pub strays : W → Bool
  pub prepares : (h : Handle) (sql : String) (w : W) → strays (api.prepare_v2 h sql w).2 ≡ strays w
  pub given :
      (c : Native D) (h : Handle) (w : W)
      → strays (invoke stmts c h w) ≡ strays w || not (is_fit (base.is_open w) h)
  pub finalized :
      (h : Handle) (w : W)
      → strays (stmts.finalize h w).1 ≡ strays w || not (is_fit (base.is_open w) h)
