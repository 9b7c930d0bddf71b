-- ===== src/Connection/Limits.antt =====
-- connection.cpp, `limit()` and the functions that are named for a limit each.
pub mod Independence
use sqxx.Base.Int.{ℤ}
use sqxx.Statement.{Handle}

-- SQLITE_LIMIT_…
pub data LimitId : Type 0 where
  length sql_length column expr_depth compound_select vdbe_op function_arg attached
        like_pattern_length variable_number trigger_depth worker_threads :
      LimitId

unfoldable pub LimitId-discrete : Discrete LimitId
LimitId-discrete = hlevel

-- sqlite3_limit() gives the value that the limit had.
pub record LimitApi (W : Type 0) : Type 0 where
  pub limit : Handle → LimitId → ℤ → W → ℤ × W

module _ {W : Type 0} (api : LimitApi W) (handle : Handle) where
  -- int connection::limit(int id, int value)
  pub limit : LimitId → ℤ → W → ℤ × W
  limit id value = api.limit handle id value

  pub limit_length : ℤ → W → ℤ × W
  unfolding limit
  limit_length value = limit length value

  pub limit_sql_length : ℤ → W → ℤ × W
  unfolding limit
  limit_sql_length value = limit sql_length value

  pub limit_column : ℤ → W → ℤ × W
  unfolding limit
  limit_column value = limit column value

  pub limit_expr_depth : ℤ → W → ℤ × W
  unfolding limit
  limit_expr_depth value = limit expr_depth value

  pub limit_compound_select : ℤ → W → ℤ × W
  unfolding limit
  limit_compound_select value = limit compound_select value

  pub limit_vdbe_op : ℤ → W → ℤ × W
  unfolding limit
  limit_vdbe_op value = limit vdbe_op value

  pub limit_function_arg : ℤ → W → ℤ × W
  unfolding limit
  limit_function_arg value = limit function_arg value

  pub limit_attached : ℤ → W → ℤ × W
  unfolding limit
  limit_attached value = limit attached value

  pub limit_like_pattern_length : ℤ → W → ℤ × W
  unfolding limit
  limit_like_pattern_length value = limit like_pattern_length value

  pub limit_variable_number : ℤ → W → ℤ × W
  unfolding limit
  limit_variable_number value = limit variable_number value

  pub limit_trigger_depth : ℤ → W → ℤ × W
  unfolding limit
  limit_trigger_depth value = limit trigger_depth value

  pub limit_worker_threads : ℤ → W → ℤ × W
  unfolding limit
  limit_worker_threads value = limit worker_threads value
