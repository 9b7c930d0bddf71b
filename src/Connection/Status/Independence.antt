-- ===== src/Connection/Status/Independence.antt =====
-- Each of the functions reads and resets the counter that it is named for, and no other.
use mathlib.Core.Logic.{ite}
use sqxx.Base.{◌≡◌, refl, ◌∙◌, ap, Bool, true}
use sqxx.Effect.{Outcome, returned}
use sqxx.Counters.{Counter, StatusApi, read_counter, CounterLaws, read_counter_lem}
use sqxx.Connection.Status.{
  CounterId, lookaside_used, lookaside_hit, lookaside_miss_size, lookaside_miss_full, cache_used,
  cache_used_shared, schema_used, stmt_used, cache_hit, cache_miss, cache_write, deferred_fks,
  CounterId-discrete, status, status_lookaside_used, status_lookaside_hit,
  status_lookaside_miss_size, status_lookaside_miss_full, status_cache_used,
  status_cache_used_shared, status_schema_used, status_stmt_used, status_cache_hit,
  status_cache_miss, status_cache_write, status_deferred_fks,
}

module _ {W : Type 0} (api : StatusApi CounterId W) where
  -- The function that is named for a counter.
  unfoldable pub status_of : CounterId → Bool → W → Outcome Counter × W
  status_of lookaside_used = status_lookaside_used api
  status_of lookaside_hit = status_lookaside_hit api
  status_of lookaside_miss_size = status_lookaside_miss_size api
  status_of lookaside_miss_full = status_lookaside_miss_full api
  status_of cache_used = status_cache_used api
  status_of cache_used_shared = status_cache_used_shared api
  status_of schema_used = status_schema_used api
  status_of stmt_used = status_stmt_used api
  status_of cache_hit = status_cache_hit api
  status_of cache_miss = status_cache_miss api
  status_of cache_write = status_cache_write api
  status_of deferred_fks = status_deferred_fks api

  status_of_lem :
      (i : CounterId) (reset : Bool) (w : W) → status_of i reset w ≡ read_counter api i reset w
  unfolding status_of status status_lookaside_used status_lookaside_hit status_lookaside_miss_size
      status_lookaside_miss_full status_cache_used status_cache_used_shared status_schema_used
      status_stmt_used status_cache_hit status_cache_miss status_cache_write status_deferred_fks
  status_of_lem lookaside_used reset w = refl
  status_of_lem lookaside_hit reset w = refl
  status_of_lem lookaside_miss_size reset w = refl
  status_of_lem lookaside_miss_full reset w = refl
  status_of_lem cache_used reset w = refl
  status_of_lem cache_used_shared reset w = refl
  status_of_lem schema_used reset w = refl
  status_of_lem stmt_used reset w = refl
  status_of_lem cache_hit reset w = refl
  status_of_lem cache_miss reset w = refl
  status_of_lem cache_write reset w = refl
  status_of_lem deferred_fks reset w = refl

  -- For counters of sqlite3 as documented: after one of the functions of a connection has reset its
  -- counter, another gives the current value of its own counter and the highest one; that is the
  -- current one where both are named for one counter, and unchanged otherwise.
  pub status_of-status_of :
      (laws : CounterLaws api CounterId-discrete) (i j : CounterId) (reset : Bool) (w : W)
      → (status_of j reset (status_of i true w).1).0
        ≡ returned (record {
          current = laws.current j w;
          highwater = ite (CounterId-discrete i j) (laws.current j w) (laws.highwater j w);
        })
  status_of-status_of laws i j reset w =
      ap (λ x. (status_of j reset x.1).0) (status_of_lem i true w)
      ∙ ap (λ x. x.0) (status_of_lem j reset _)
      ∙ read_counter_lem api CounterId-discrete laws i j reset w
