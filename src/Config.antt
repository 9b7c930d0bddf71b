-- ===== src/Config.antt =====
-- config.hpp and config.cpp: the options of sqlite3_config, with the two handlers that the library owns
-- copies of; and sqxx.cpp, which initializes sqlite3 before main.
pub mod Settings
pub mod Safety
pub mod Startup
use sqxx.Base.{ℕ, String, Bool, true, false, Option, none, some, if◌then◌else◌}
use sqxx.Base.Int.{ℤ, pos}
use sqxx.Effect.{Code, Outcome, returned, thrown, static_error, is_ok}
use sqxx.Heap.{Heap, new, delete}
use sqxx.Slots.{Table, set_slot}

-- struct config_callback_table
pub data LogHook : Type 0 where
  log_handler sqllog_handler : LogHook

pub LogHook-discrete : Discrete LogHook
LogHook-discrete = hlevel

-- The calls of sqlite3_config by their option, SQLITE_CONFIG_…; a buffer is its address, and a handler is
-- the pointer to its copy.
pub data ConfigCall : Type 0 where
  singlethread multithread serialized pcache_hdrsz : ConfigCall
  memstatus uri covering_index_scan : Bool → ConfigCall
  scratch pagecache heap : ℕ → ℤ → ℤ → ConfigCall
  lookaside mmap_size : ℤ → ℤ → ConfigCall
  win32_heapsize : ℕ → ConfigCall
  pmasz stmtjrnl_spill : ℤ → ConfigCall
  handler : LogHook → Option ℕ → ConfigCall

-- `config` gives the number that an option writes back, too.
pub record ConfigApi (W : Type 0) : Type 0 where
  pub errstr : Code → String
  pub initialize : W → W
  pub shutdown : W → W
  pub config : ConfigCall → W → Code × ℤ × W

pub record State (W : Type 0) : Type 0 where
  pub callbacks : Table LogHook
  pub heap : Heap
  pub world : W

-- struct lib_setup, of which there is one static object
pub setup : {W : Type 0} → ConfigApi W → W → W
setup api w = api.initialize w

pub teardown : {W : Type 0} → ConfigApi W → W → W
teardown api w = api.shutdown w

module _ {W : Type 0} (api : ConfigApi W) where
  -- `int rv = sqlite3_config(…); if (rv != SQLITE_OK) throw static_error(rv);`
  pub plain : ConfigCall → State W → Outcome ℤ × State W
  plain c s =
      let (rv, n, w) = api.config c s.world in
      (if is_ok rv then returned n else thrown (static_error api.errstr rv), record s { world = w })

  pub config_singlethread : State W → Outcome ℤ × State W
  unfolding plain
  config_singlethread = plain singlethread

  pub config_multithread : State W → Outcome ℤ × State W
  unfolding plain
  config_multithread = plain multithread

  pub config_serialized : State W → Outcome ℤ × State W
  unfolding plain
  config_serialized = plain serialized

  pub config_memstatus : Bool → State W → Outcome ℤ × State W
  unfolding plain
  config_memstatus enable = plain (memstatus enable)

  pub config_scratch : ℕ → ℤ → ℤ → State W → Outcome ℤ × State W
  unfolding plain
  config_scratch buf sz n = plain (scratch buf sz n)

  pub config_pagecache : ℕ → ℤ → ℤ → State W → Outcome ℤ × State W
  unfolding plain
  config_pagecache buf sz n = plain (pagecache buf sz n)

  pub config_heap : ℕ → ℤ → ℤ → State W → Outcome ℤ × State W
  unfolding plain
  config_heap buf bytes minalloc = plain (heap buf bytes minalloc)

  pub config_lookaside : ℤ → ℤ → State W → Outcome ℤ × State W
  unfolding plain
  config_lookaside sz n = plain (lookaside sz n)

  pub config_uri : Bool → State W → Outcome ℤ × State W
  unfolding plain
  config_uri enable = plain (uri enable)

  pub config_covering_index_scan : Bool → State W → Outcome ℤ × State W
  unfolding plain
  config_covering_index_scan enable = plain (covering_index_scan enable)

  pub config_mmap_size : ℤ → ℤ → State W → Outcome ℤ × State W
  unfolding plain
  config_mmap_size defaultlimit maxlimit = plain (mmap_size defaultlimit maxlimit)

  pub config_win32_heapsize : ℕ → State W → Outcome ℤ × State W
  unfolding plain
  config_win32_heapsize maxsize = plain (win32_heapsize maxsize)

  pub config_pcache_hdrsz : State W → Outcome ℤ × State W
  unfolding plain
  config_pcache_hdrsz = plain pcache_hdrsz

  pub config_pmasz : ℕ → State W → Outcome ℤ × State W
  unfolding plain
  config_pmasz minsize = plain (pmasz (pos minsize))

  -- The option that the source names here is SQLITE_CONFIG_PMASZ.
  pub config_stmtjrnl_spill : ℤ → State W → Outcome ℤ × State W
  unfolding plain
  config_stmtjrnl_spill threshold = plain (pmasz threshold)

  -- config_log() and config_sqllog(): the copy stays in the table.
  pub config_no_handler : LogHook → State W → Outcome ℤ × State W
  unfolding plain
  config_no_handler k = plain (handler k none)

  -- What follows the call, with the copy at `cb` in a local unique_ptr.
  keep_or_delete : LogHook → ℕ → Code × ℤ × W → State W → Outcome ℤ × State W
  keep_or_delete k cb (rv, n, w) s =
      if is_ok rv
      then (
        returned n,
        record s {
          callbacks = set_slot LogHook-discrete k (some cb) s.callbacks;
          heap = delete (s.callbacks k) s.heap;
          world = w;
        },
      )
      else (
        thrown (static_error api.errstr rv),
        record s { heap = delete (some cb) s.heap; world = w },
      )

  -- config_log(fun) and config_sqllog(fun), for a `fun` that may be empty
  pub config_handler : LogHook → Bool → State W → Outcome ℤ × State W
  unfolding config_no_handler keep_or_delete
  config_handler k false s = config_no_handler k s
  config_handler k true s =
      let (cb, h) = new s.heap in
      keep_or_delete k cb (api.config (handler k (some cb)) s.world) (record s { heap = h })

  -- config_log(…)
  pub config_log : Bool → State W → Outcome ℤ × State W
  unfolding config_handler
  config_log fun = config_handler log_handler fun

  -- config_sqllog(…)
  pub config_sqllog : Bool → State W → Outcome ℤ × State W
  unfolding config_handler
  config_sqllog fun = config_handler sqllog_handler fun
