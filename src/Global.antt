-- ===== src/Global.antt =====
-- global.cpp: the counters of the whole library.
pub mod Independence
pub mod Library
use sqxx.Base.{Bool}
use sqxx.Effect.{Outcome}
use sqxx.Counters.{Counter, StatusApi, read_counter}

-- SQLITE_STATUS_…
pub data CounterId : Type 0 where
  memory_used malloc_size malloc_count pagecache_used pagecache_overflow pagecache_size scratch_used
        scratch_overflow scratch_size parser_stack :
      CounterId

unfoldable pub CounterId-discrete : Discrete CounterId
CounterId-discrete = hlevel

-- `api` is sqlite3_status64().
module _ {W : Type 0} (api : StatusApi CounterId W) where
  -- counter status(int op, bool reset)
  pub status : CounterId → Bool → W → Outcome Counter × W
  unfolding read_counter
  status op reset = read_counter api op reset

  pub status_memory_used : Bool → W → Outcome Counter × W
  unfolding status
  status_memory_used reset = status memory_used reset

  pub status_malloc_size : Bool → W → Outcome Counter × W
  unfolding status
  status_malloc_size reset = status malloc_size reset

  pub status_malloc_count : Bool → W → Outcome Counter × W
  unfolding status
  status_malloc_count reset = status malloc_count reset

  pub status_pagecache_used : Bool → W → Outcome Counter × W
  unfolding status
  status_pagecache_used reset = status pagecache_used reset

  pub status_pagecache_overflow : Bool → W → Outcome Counter × W
  unfolding status
  status_pagecache_overflow reset = status pagecache_overflow reset

  pub status_pagecache_size : Bool → W → Outcome Counter × W
  unfolding status
  status_pagecache_size reset = status pagecache_size reset

  pub status_scratch_used : Bool → W → Outcome Counter × W
  unfolding status
  status_scratch_used reset = status scratch_used reset

  pub status_scratch_overflow : Bool → W → Outcome Counter × W
  unfolding status
  status_scratch_overflow reset = status scratch_overflow reset

  pub status_scratch_size : Bool → W → Outcome Counter × W
  unfolding status
  status_scratch_size reset = status scratch_size reset

  pub status_parser_stack : Bool → W → Outcome Counter × W
  unfolding status
  status_parser_stack reset = status parser_stack reset
