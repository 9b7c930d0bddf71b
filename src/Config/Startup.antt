-- ===== src/Config/Startup.antt =====
-- The order in which main and the static object of sqxx.cpp run: what a program configures after
-- sqlite3 was initialized.
use sqxx.Base.{
  ap, Option, none, some, Bool-cases, inl, inr, ℕ, ◌≡◌, refl, ◌∙◌, Bool, true, false, List, [], ◌∷◌,
}
use sqxx.Base.Int.{ℤ}
use sqxx.Effect.{Code, sqlite_misuse, is_ok, thrown, static_error}
use sqxx.Heap.{new}
use sqxx.Config.{
  LogHook, log_handler, sqllog_handler, ConfigCall, handler, ConfigApi, State, setup, plain,
  config_no_handler, config_handler, keep_or_delete,
}
use sqxx.Config.Settings.{
  shape, sets_option, sets_handler, drops_handler, takes_any_time, is_any_time, Setting, configure,
  configure_all,
}

-- What sqlite3 documents: sqlite3_initialize() initializes it, and then sqlite3_config() answers
-- SQLITE_MISUSE but for those options; it does not itself shut sqlite3 down.
pub record StartupLaws {W : Type 0} (api : ConfigApi W) : Type 0 where
  pub is_initialized : W → Bool
  pub initializes : (w : W) → is_initialized (api.initialize w) ≡ true
  pub refuses :
      (c : ConfigCall) (w : W)
      → takes_any_time c ≡ false
      → is_initialized w ≡ true
      → (api.config c w).0 ≡ sqlite_misuse
  pub stays : (c : ConfigCall) (w : W) → is_initialized (api.config c w).2 ≡ is_initialized w

module _ {W : Type 0} (api : ConfigApi W) (laws : StartupLaws api) where
  keep_or_delete-stays :
      (k : LogHook) (cb : ℕ) (r : Code × ℤ × W) (s : State W)
      → (keep_or_delete api k cb r s).1.world ≡ r.2
  unfolding keep_or_delete
  keep_or_delete-stays k cb (rv, n, w) s = elim (Bool-cases (is_ok rv)) [
    | inl e ↦ rw e refl
    | inr e ↦ rw e refl
  ]

  handled-stays :
      (k : LogHook) (s : State W)
      → laws.is_initialized (config_handler api k true s).1.world ≡ laws.is_initialized s.world
  unfolding config_handler
  handled-stays k s =
      ap laws.is_initialized (keep_or_delete-stays k _ _ (record s { heap = (new s.heap).1 }))
      ∙ laws.stays _ s.world

  configure-stays :
      (r : Setting) (s : State W)
      → laws.is_initialized (configure api r s).1.world ≡ laws.is_initialized s.world
  unfolding plain config_no_handler
  configure-stays r s = elim (shape api r) [
    | sets_option c _ _ same ↦ rw (same s) (laws.stays c s.world)
    | sets_handler k _ same ↦ rw (same s) (handled-stays k s)
    | drops_handler k _ same ↦ rw (same s) (laws.stays (handler k none) s.world)
  ]

  configure_all-stays :
      (rs : List Setting) (s : State W)
      → laws.is_initialized s.world ≡ true
      → laws.is_initialized (configure_all api rs s).world ≡ true
  unfolding configure_all
  configure_all-stays [] s e = e
  configure_all-stays (r ∷ rs) s e = configure_all-stays rs _ (configure-stays r s ∙ e)

  plain-refuses :
      (c : ConfigCall) (s : State W)
      → takes_any_time c ≡ false
      → laws.is_initialized s.world ≡ true
      → (plain api c s).0 ≡ thrown (static_error api.errstr sqlite_misuse)
  unfolding plain
  plain-refuses c s e i = rw (laws.refuses c s.world e i) refl

  handler-refuses :
      (k : LogHook) (p : Option ℕ) (w : W)
      → takes_any_time (handler k none) ≡ false
      → laws.is_initialized w ≡ true
      → (api.config (handler k p) w).0 ≡ sqlite_misuse
  handler-refuses log_handler p w e i = absurd (cc)
  handler-refuses sqllog_handler p w e i = laws.refuses (handler sqllog_handler p) w refl i

  configure-refuses :
      (r : Setting) (s : State W)
      → is_any_time r ≡ false
      → laws.is_initialized s.world ≡ true
      → (configure api r s).0 ≡ thrown (static_error api.errstr sqlite_misuse)
  unfolding config_handler config_no_handler keep_or_delete new
  configure-refuses r s e i = elim (shape api r) [
    | sets_option c _ late same ↦ rw (same s) (plain-refuses c s (late ∙ e) i)
    | sets_handler k late same ↦
        rw (same s) (rw (handler-refuses k (some s.heap.next) s.world (late ∙ e) i) refl)
    | drops_handler k late same ↦ rw (same s) (plain-refuses (handler k none) s (late ∙ e) i)
  ]

  -- For a sqlite3_config that refuses most options once sqlite3 is initialized, as documented: the
  -- static object initializes sqlite3 before main, so that a program, after whatever other options,
  -- can set none but the log handler and ask for the page cache's header size; every other function
  -- of config.cpp throws a static_error with SQLITE_MISUSE.
  pub configure-setup :
      (rs : List Setting) (r : Setting) (s : State W)
      → is_any_time r ≡ false
      → (configure api r (configure_all api rs (record s { world = setup api s.world }))).0
        ≡ thrown (static_error api.errstr sqlite_misuse)
  unfolding setup
  configure-setup rs r s e =
      configure-refuses r _ e (configure_all-stays rs _ (laws.initializes s.world))
