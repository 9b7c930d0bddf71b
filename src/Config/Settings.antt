-- ===== src/Config/Settings.antt =====
-- The functions of config.cpp as values, for the sequences of them that a program calls.
use sqxx.Base.{ℕ, ◌≡◌, refl, Bool, true, false, Option, none, some, List, [], ◌∷◌}
use sqxx.Base.Int.{ℤ}
use sqxx.Effect.{Outcome}
use sqxx.Config.{
  LogHook, ConfigCall, handler, pcache_hdrsz, ConfigApi, State, plain, config_handler,
  config_singlethread, config_multithread, config_serialized, config_pcache_hdrsz, config_memstatus,
  config_uri, config_covering_index_scan, config_scratch, config_pagecache, config_heap,
  config_lookaside, config_mmap_size, config_win32_heapsize, config_pmasz, config_stmtjrnl_spill,
  config_log, config_sqllog, log_handler, sqllog_handler, config_no_handler,
}

pub data Setting : Type 0 where
  singlethreads : Setting
  multithreads : Setting
  serializes : Setting
  pcache_hdrszs : Setting
  memstatuses : Bool → Setting
  uris : Bool → Setting
  covering_index_scans : Bool → Setting
  scratches : ℕ → ℤ → ℤ → Setting
  pagecaches : ℕ → ℤ → ℤ → Setting
  heaps : ℕ → ℤ → ℤ → Setting
  lookasides : ℤ → ℤ → Setting
  mmap_sizes : ℤ → ℤ → Setting
  win32_heapsizes : ℕ → Setting
  pmaszs : ℕ → Setting
  stmtjrnl_spills : ℤ → Setting
  handles : LogHook → Bool → Setting
  unhandles : LogHook → Setting

-- The handler that a call is about, with the pointer that it gives sqlite3.
abbrev pub handler_of : ConfigCall → Option (LogHook × Option ℕ)
handler_of (handler k p) = some (k, p)
handler_of _ = none

-- The options that sqlite3 takes at any time: SQLITE_CONFIG_LOG and SQLITE_CONFIG_PCACHE_HDRSZ.
abbrev pub takes_any_time : ConfigCall → Bool
takes_any_time pcache_hdrsz = true
takes_any_time (handler log_handler p) = true
takes_any_time _ = false

abbrev pub is_any_time : Setting → Bool
is_any_time pcache_hdrszs = true
is_any_time (handles log_handler fun) = true
is_any_time (unhandles log_handler) = true
is_any_time _ = false

module _ {W : Type 0} (api : ConfigApi W) where
  unfoldable pub configure : Setting → State W → Outcome ℤ × State W
  configure singlethreads = config_singlethread api
  configure multithreads = config_multithread api
  configure serializes = config_serialized api
  configure pcache_hdrszs = config_pcache_hdrsz api
  configure (memstatuses enable) = config_memstatus api enable
  configure (uris enable) = config_uri api enable
  configure (covering_index_scans enable) = config_covering_index_scan api enable
  configure (scratches buf sz n) = config_scratch api buf sz n
  configure (pagecaches buf sz n) = config_pagecache api buf sz n
  configure (heaps buf bytes minalloc) = config_heap api buf bytes minalloc
  configure (lookasides sz n) = config_lookaside api sz n
  configure (mmap_sizes defaultlimit maxlimit) = config_mmap_size api defaultlimit maxlimit
  configure (win32_heapsizes maxsize) = config_win32_heapsize api maxsize
  configure (pmaszs minsize) = config_pmasz api minsize
  configure (stmtjrnl_spills threshold) = config_stmtjrnl_spill api threshold
  configure (handles log_handler fun) = config_log api fun
  configure (handles sqllog_handler fun) = config_sqllog api fun
  configure (unhandles k) = config_no_handler api k

  unfoldable pub configure_all : List Setting → State W → State W
  unfolding configure
  configure_all [] s = s
  configure_all (r ∷ rs) s = configure_all rs (configure r s).1

  -- What the call of a setting comes to.
  pub data Shape (r : Setting) : Type 0 where
    sets_option :
        (c : ConfigCall)
        → handler_of c ≡ none
        → takes_any_time c ≡ is_any_time r
        → ((s : State W) → configure r s ≡ plain api c s)
        → Shape r
    sets_handler :
        (k : LogHook)
        → takes_any_time (handler k none) ≡ is_any_time r
        → ((s : State W) → configure r s ≡ config_handler api k true s)
        → Shape r
    drops_handler :
        (k : LogHook)
        → takes_any_time (handler k none) ≡ is_any_time r
        → ((s : State W) → configure r s ≡ config_no_handler api k s)
        → Shape r

  pub shape : (r : Setting) → Shape r
  unfolding configure config_log config_sqllog config_handler config_singlethread config_multithread
      config_serialized config_pcache_hdrsz config_memstatus config_uri config_covering_index_scan
      config_scratch config_pagecache config_heap config_lookaside config_mmap_size
      config_win32_heapsize config_pmasz config_stmtjrnl_spill
  shape singlethreads = sets_option _ refl refl (λ s. refl)
  shape multithreads = sets_option _ refl refl (λ s. refl)
  shape serializes = sets_option _ refl refl (λ s. refl)
  shape pcache_hdrszs = sets_option _ refl refl (λ s. refl)
  shape (memstatuses x) = sets_option _ refl refl (λ s. refl)
  shape (uris x) = sets_option _ refl refl (λ s. refl)
  shape (covering_index_scans x) = sets_option _ refl refl (λ s. refl)
  shape (scratches b n m) = sets_option _ refl refl (λ s. refl)
  shape (pagecaches b n m) = sets_option _ refl refl (λ s. refl)
  shape (heaps b n m) = sets_option _ refl refl (λ s. refl)
  shape (lookasides n m) = sets_option _ refl refl (λ s. refl)
  shape (mmap_sizes n m) = sets_option _ refl refl (λ s. refl)
  shape (win32_heapsizes n) = sets_option _ refl refl (λ s. refl)
  shape (pmaszs n) = sets_option _ refl refl (λ s. refl)
  shape (stmtjrnl_spills n) = sets_option _ refl refl (λ s. refl)
  shape (handles log_handler true) = sets_handler log_handler refl (λ s. refl)
  shape (handles sqllog_handler true) = sets_handler sqllog_handler refl (λ s. refl)
  shape (handles log_handler false) = drops_handler log_handler refl (λ s. refl)
  shape (handles sqllog_handler false) = drops_handler sqllog_handler refl (λ s. refl)
  shape (unhandles log_handler) = drops_handler log_handler refl (λ s. refl)
  shape (unhandles sqllog_handler) = drops_handler sqllog_handler refl (λ s. refl)
