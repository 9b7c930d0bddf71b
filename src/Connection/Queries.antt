-- ===== src/Connection/Queries.antt =====
-- connection.cpp, `prepare()`, `query()` and `run()`: statements made from SQL text. The length that
-- the source passes to sqlite3_prepare_v2 is that of the whole text, so it is not an argument here.
pub mod Unwinding
use sqxx.Base.{ℕ, String, none, if◌then◌else◌}
use sqxx.Effect.{Code, Outcome, returned, thrown, static_error, is_ok, Obj}
use sqxx.Statement
use sqxx.Statement.{Handle, StmtApi, Statement}

pub record PrepareApi (W : Type 0) : Type 0 where
  pub errstr : Code → String
  pub prepare_v2 : Handle → String → W → Code × Handle × W

module _ {W D : Type 0} (api : PrepareApi W) (stmts : StmtApi W D) where
  -- statement connection::prepare(sql), for the connection `conn` with that handle
  unfoldable pub prepare : ℕ → Handle → String → W → Outcome Statement × W
  prepare conn handle sql w =
      let (rv, stmt, w') = api.prepare_v2 handle sql w in
      (
        if is_ok rv
            then returned (Statement.init conn stmt)
            else thrown (static_error api.errstr rv),
        w',
      )

  -- What follows `st.run()`: `return st;`, or the exception, which destroys the local `st`.
  unfoldable unwind : Outcome (Unit {0}) × Obj Statement W → Outcome Statement × W
  unwind (returned _, o) = (returned o.self, o.world)
  unwind (thrown e, o) = (thrown e, Statement.destroy stmts o.self o.world)

  unfoldable run_prepared : Outcome Statement × W → Outcome Statement × W
  unfolding unwind
  run_prepared (returned st, w) = unwind (Statement.run stmts (record { self = st; world = w }))
  run_prepared (thrown e, w) = (thrown e, w)

  -- statement connection::query(sql)
  unfoldable pub query : ℕ → Handle → String → W → Outcome Statement × W
  unfolding prepare run_prepared
  query conn handle sql w = run_prepared (prepare conn handle sql w)

  -- statement connection::run(sql)
  pub run : ℕ → Handle → String → W → Outcome Statement × W
  unfolding query
  run = query
