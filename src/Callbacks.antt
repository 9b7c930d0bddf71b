-- ===== src/Callbacks.antt =====
-- error.cpp, the handler of exceptions that a callback throws, and the `sqxx_call_…` functions of
-- connection.cpp and config.cpp through which sqlite3 calls C++ handlers.
pub mod Guard
use Prim.Native.String.{◌++◌}
use sqxx.Base.{ℕ, String, Bool, true, false, Option, none, some, List, [], ◌∷◌}
use sqxx.Base.Int.{ℤ, pos}
use sqxx.Effect.{
  Code, sqlite_ok, sqlite_error, Exception, error, bad_alloc, std_exception, unknown, Outcome,
  returned, thrown,
}

-- The lines on std::cerr, the newest first, and what the program's own handlers write to.
pub record Log (U : Type 0) : Type 0 where
  pub cerr : List String
  pub user : U

-- The callback_exception_handler; `none` is the empty std::function.
abbrev pub ExceptionHandler : Type 0 → Type 0
ExceptionHandler U = Option (String → Exception → Log U → Outcome (Unit {0}) × Log U)

-- what() of a std::exception, and the text for other thrown values.
unfoldable pub describe : Exception → String
describe (error code what) = what
describe bad_alloc = "std::bad_alloc"
describe (std_exception what) = what
describe (unknown n) = "(unknown exception type)"

pub default_callback_exception_handler : {U : Type 0} → String → Exception → Log U → Log U
unfolding describe
default_callback_exception_handler cbname ex l = record l {
  cerr = ("SQXX: uncaught exeption in " ++ cbname ++ ": " ++ describe ex) ∷ l.cerr;
}

after_handler : {U : Type 0} → Outcome (Unit {0}) × Log U → Log U
unfolding default_callback_exception_handler
after_handler (returned _, l) = l
after_handler (thrown ex, l) = default_callback_exception_handler "callback exception handler" ex l

unfoldable pub handle_callback_exception :
    {U : Type 0} → ExceptionHandler U → String → Exception → Log U → Log U
unfolding after_handler
handle_callback_exception none cbname ex l = l
handle_callback_exception (some handler) cbname ex l = after_handler (handler cbname ex l)

-- `catch (...) { handle_callback_exception(cbname); return fallback; }`
unfoldable pub caught :
    {U R : Type 0} → ExceptionHandler U → String → R → Outcome R × Log U → R × Log U
caught h cbname fallback (returned v, l) = (v, l)
caught h cbname fallback (thrown ex, l) = (fallback, handle_callback_exception h cbname ex l)

-- `try { return run(); }` with that handler
unfoldable pub guarded :
    {U R : Type 0}
    → ExceptionHandler U
    → String
    → R
    → (Log U → Outcome R × Log U)
    → Log U
    → R × Log U
unfolding caught
guarded h cbname fallback run l = caught h cbname fallback (run l)

-- A bool that is returned as an int.
abbrev pub of_bool : Bool → ℤ
of_bool true = pos 1
of_bool false = pos 0

abbrev pub converted : {U A B : Type 0} → (A → B) → Outcome A × Log U → Outcome B × Log U
converted f (returned v, l) = (returned (f v), l)
converted f (thrown ex, l) = (thrown ex, l)

-- The value of a handler, converted to the type that the C function returns.
abbrev pub map_result :
    {U A B : Type 0} → (A → B) → (Log U → Outcome A × Log U) → Log U → Outcome B × Log U
map_result f run l = converted f (run l)

-- A handler of the program: it may throw, and it may write to the log.
abbrev pub Handler : Type 0 → Type 0 → Type 0 → Type 0
Handler U A R = A → Log U → Outcome R × Log U

-- `ignore` is the number SQLITE_IGNORE of sqlite3.h.
module _ {U : Type 0} (ignore : ℤ) (h : ExceptionHandler U) where
  pub call_commit_handler : Handler U (Unit {0}) ℤ → Log U → ℤ × Log U
  unfolding guarded
  call_commit_handler fn = guarded h "commit handler" (pos 1) (fn tt)

  pub call_rollback_handler : Handler U (Unit {0}) (Unit {0}) → Log U → Unit {0} × Log U
  unfolding guarded
  call_rollback_handler fn = guarded h "rollback handler" tt (fn tt)

  pub call_update_handler :
      Handler U (ℤ × String × String × ℤ) (Unit {0})
      → ℤ × String × String × ℤ
      → Log U
      → Unit {0} × Log U
  unfolding guarded
  call_update_handler fn row = guarded h "update handler" tt (fn row)

  pub call_trace_handler : Handler U String (Unit {0}) → String → Log U → Unit {0} × Log U
  unfolding guarded
  call_trace_handler fn sql = guarded h "trace handler" tt (fn sql)

  pub call_profile_handler :
      Handler U (String × ℕ) (Unit {0}) → String × ℕ → Log U → Unit {0} × Log U
  unfolding guarded
  call_profile_handler fn timing = guarded h "profile handler" tt (fn timing)

  pub call_authorize_handler :
      Handler U (ℤ × List (Option String)) ℤ → ℤ × List (Option String) → Log U → ℤ × Log U
  unfolding guarded
  call_authorize_handler fn action = guarded h "authorize handler" ignore (fn action)

  pub call_busy_handler : Handler U ℤ Bool → ℤ → Log U → ℤ × Log U
  unfolding guarded
  call_busy_handler fn count = guarded h "busy handler" (pos 0) (map_result of_bool (fn count))

  pub call_progress_handler : Handler U (Unit {0}) Bool → Log U → ℤ × Log U
  unfolding guarded
  call_progress_handler fn = guarded h "progress handler" (pos 0) (map_result of_bool (fn tt))

  pub call_wal_handler : Handler U (String × ℤ) (Unit {0}) → String × ℤ → Log U → Code × Log U
  unfolding guarded
  call_wal_handler fn pages =
      guarded h "wal handler" sqlite_error (map_result (λ _. sqlite_ok) (fn pages))

  pub call_collation_handler : Handler U String (Unit {0}) → String → Log U → Unit {0} × Log U
  unfolding guarded
  call_collation_handler fn name = guarded h "collation handler" tt (fn name)

  pub call_config_log_handler :
      Handler U (ℤ × String) (Unit {0}) → ℤ × String → Log U → Unit {0} × Log U
  unfolding guarded
  call_config_log_handler fn message = guarded h "log handler" tt (fn message)

  pub call_config_sqllog_handler :
      Handler U (String × ℤ) (Unit {0}) → String × ℤ → Log U → Unit {0} × Log U
  unfolding guarded
  call_config_sqllog_handler fn message = guarded h "sqllog handler" tt (fn message)

  -- collation_compare_ptr of connection_create_collation.impl.hpp, and collation_compare_staticfptr.
  unfoldable pub collation_compare : {B : Type 0} → Handler U (B × B) ℤ → B × B → Log U → ℤ × Log U
  unfolding guarded
  collation_compare fn texts = guarded h "collation function" (pos 0) (fn texts)
