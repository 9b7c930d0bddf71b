-- ===== src/Global/Independence.antt =====
-- Each of the functions reads and resets the counter that it is named for, and no other.
use mathlib.Core.Logic.{ite}
use sqxx.Base.{◌≡◌, refl, ◌∙◌, ap, Bool, true}
use sqxx.Effect.{Outcome, returned}
use sqxx.Counters.{Counter, StatusApi, read_counter, CounterLaws, read_counter_lem}
use sqxx.Global.{
  CounterId, memory_used, malloc_size, malloc_count, pagecache_used, pagecache_overflow,
  pagecache_size, scratch_used, scratch_overflow, scratch_size, parser_stack, CounterId-discrete,
  status, status_memory_used, status_malloc_size, status_malloc_count, status_pagecache_used,
  status_pagecache_overflow, status_pagecache_size, status_scratch_used, status_scratch_overflow,
  status_scratch_size, status_parser_stack,
}

module _ {W : Type 0} (api : StatusApi CounterId W) where
  -- The function that is named for a counter.
  unfoldable pub global_status_of : CounterId → Bool → W → Outcome Counter × W
  global_status_of memory_used = status_memory_used api
  global_status_of malloc_size = status_malloc_size api
  global_status_of malloc_count = status_malloc_count api
  global_status_of pagecache_used = status_pagecache_used api
  global_status_of pagecache_overflow = status_pagecache_overflow api
  global_status_of pagecache_size = status_pagecache_size api
  global_status_of scratch_used = status_scratch_used api
  global_status_of scratch_overflow = status_scratch_overflow api
  global_status_of scratch_size = status_scratch_size api
  global_status_of parser_stack = status_parser_stack api

  global_status_of_lem :
      (i : CounterId) (reset : Bool) (w : W)
      → global_status_of i reset w ≡ read_counter api i reset w
  unfolding global_status_of status status_memory_used status_malloc_size status_malloc_count
      status_pagecache_used status_pagecache_overflow status_pagecache_size status_scratch_used
      status_scratch_overflow status_scratch_size status_parser_stack
  global_status_of_lem memory_used reset w = refl
  global_status_of_lem malloc_size reset w = refl
  global_status_of_lem malloc_count reset w = refl
  global_status_of_lem pagecache_used reset w = refl
  global_status_of_lem pagecache_overflow reset w = refl
  global_status_of_lem pagecache_size reset w = refl
  global_status_of_lem scratch_used reset w = refl
  global_status_of_lem scratch_overflow reset w = refl
  global_status_of_lem scratch_size reset w = refl
  global_status_of_lem parser_stack reset w = refl

  -- For counters of sqlite3 as documented: after one of the status functions of the library has
  -- reset its counter, another gives the current value of its own counter and the highest one; that
  -- is the current one where both are named for one counter, and unchanged otherwise.
  pub global_status_of-global_status_of :
      (laws : CounterLaws api CounterId-discrete) (i j : CounterId) (reset : Bool) (w : W)
      → (global_status_of j reset (global_status_of i true w).1).0
        ≡ returned (record {
          current = laws.current j w;
          highwater = ite (CounterId-discrete i j) (laws.current j w) (laws.highwater j w);
        })
  global_status_of-global_status_of laws i j reset w =
      ap (λ x. (global_status_of j reset x.1).0) (global_status_of_lem i true w)
      ∙ ap (λ x. x.0) (global_status_of_lem j reset _)
      ∙ read_counter_lem api CounterId-discrete laws i j reset w
