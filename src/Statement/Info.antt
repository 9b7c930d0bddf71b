-- ===== src/Statement/Info.antt =====
-- statement.cpp, what a statement tells of itself: `sql()`, the counters `status…()`, `readonly()` and `busy()`.
use sqxx.Base.{String, Bool, Option}
use sqxx.Base.Int.{ℤ, to_bool}
use sqxx.Effect.{Exec, Obj, ◌>>=◌, call, gets}
use sqxx.Statement.{Handle, Statement}

-- SQLITE_STMTSTATUS_…
pub data StatementCounter : Type 0 where
  fullscan_step sort autoindex vm_step : StatementCounter

pub record StmtInfoApi (W : Type 0) : Type 0 where
  pub sql : Handle → W → Option String
  pub stmt_status : Handle → StatementCounter → Bool → W → ℤ × W
  pub stmt_readonly : Handle → W → ℤ
  pub stmt_busy : Handle → W → ℤ

module _ {W : Type 0} (api : StmtInfoApi W) where
  pub sql : Exec (Obj Statement W) (Option String)
  sql = do handle ← gets (λ s. s.handle); call (λ w. (api.sql handle w, w))

  unfoldable pub status : StatementCounter → Bool → Exec (Obj Statement W) ℤ
  status op reset = do handle ← gets (λ s. s.handle); call (api.stmt_status handle op reset)

  unfoldable pub status_fullscan_step : Bool → Exec (Obj Statement W) ℤ
  unfolding status
  status_fullscan_step reset = status fullscan_step reset

  unfoldable pub status_sort : Bool → Exec (Obj Statement W) ℤ
  unfolding status
  status_sort reset = status sort reset

  unfoldable pub status_autoindex : Bool → Exec (Obj Statement W) ℤ
  unfolding status
  status_autoindex reset = status autoindex reset

  unfoldable pub status_vm_step : Bool → Exec (Obj Statement W) ℤ
  unfolding status
  status_vm_step reset = status vm_step reset

  pub readonly : Exec (Obj Statement W) Bool
  readonly = do handle ← gets (λ s. s.handle); call (λ w. (to_bool (api.stmt_readonly handle w), w))

  pub busy : Exec (Obj Statement W) Bool
  busy = do handle ← gets (λ s. s.handle); call (λ w. (to_bool (api.stmt_busy handle w), w))
