-- ===== src/Connection/Status.antt =====
-- connection.cpp, `status()` and the functions that are named for a counter each.
pub mod Independence
use sqxx.Base.{Bool}
use sqxx.Effect.{Outcome}
use sqxx.Counters.{Counter, StatusApi, read_counter}

-- SQLITE_DBSTATUS_…
pub data CounterId : Type 0 where
  lookaside_used lookaside_hit lookaside_miss_size lookaside_miss_full cache_used cache_used_shared
        schema_used stmt_used cache_hit cache_miss cache_write deferred_fks :
      CounterId

unfoldable pub CounterId-discrete : Discrete CounterId
CounterId-discrete = hlevel

-- `api` is sqlite3_db_status() for the handle.
module _ {W : Type 0} (api : StatusApi CounterId W) where
  -- counter connection::status(int op, bool reset)
  pub status : CounterId → Bool → W → Outcome Counter × W
  unfolding read_counter
  status op reset = read_counter api op reset

  pub status_lookaside_used : Bool → W → Outcome Counter × W
  unfolding status
  status_lookaside_used reset = status lookaside_used reset

  pub status_lookaside_hit : Bool → W → Outcome Counter × W
  unfolding status
  status_lookaside_hit reset = status lookaside_hit reset

  pub status_lookaside_miss_size : Bool → W → Outcome Counter × W
  unfolding status
  status_lookaside_miss_size reset = status lookaside_miss_size reset

  pub status_lookaside_miss_full : Bool → W → Outcome Counter × W
  unfolding status
  status_lookaside_miss_full reset = status lookaside_miss_full reset

  pub status_cache_used : Bool → W → Outcome Counter × W
  unfolding status
  status_cache_used reset = status cache_used reset

  pub status_cache_used_shared : Bool → W → Outcome Counter × W
  unfolding status
  status_cache_used_shared reset = status cache_used_shared reset

  pub status_schema_used : Bool → W → Outcome Counter × W
  unfolding status
  status_schema_used reset = status schema_used reset

  pub status_stmt_used : Bool → W → Outcome Counter × W
  unfolding status
  status_stmt_used reset = status stmt_used reset

  pub status_cache_hit : Bool → W → Outcome Counter × W
  unfolding status
  status_cache_hit reset = status cache_hit reset

  pub status_cache_miss : Bool → W → Outcome Counter × W
  unfolding status
  status_cache_miss reset = status cache_miss reset

  pub status_cache_write : Bool → W → Outcome Counter × W
  unfolding status
  status_cache_write reset = status cache_write reset

  pub status_deferred_fks : Bool → W → Outcome Counter × W
  unfolding status
  status_deferred_fks reset = status deferred_fks reset
