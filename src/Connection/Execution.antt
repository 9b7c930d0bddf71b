-- ===== src/Connection/Execution.antt =====
-- connection.cpp, `exec()`: running SQL with a C++ handler for the rows, and what of it sqlite3 sees.
pub mod Rethrow
use sqxx.Base.{ℕ, String, Bool, true, false, Option, none, some, List, [], ◌∷◌, if◌then◌else◌}
use sqxx.Base.Int.{ℤ, pos}
use sqxx.Effect.{Code, Exception, error, Outcome, returned, thrown, is_ok}
use sqxx.Statement.{Handle}
use sqxx.Callbacks.{of_bool}

-- A row: the texts of its columns, and their names.
pub record Row : Type 0 where
  pub values : List (Option String)
  pub columns : List String

-- struct exec_context, where `user` is all that the handler writes to.
pub record ExecContext (U : Type 0) : Type 0 where
  pub ex : Option Exception
  pub user : U

-- exec_handler_t; the empty std::function is `none` where it is taken.
abbrev pub ExecHandler : Type 0 → Type 0
ExecHandler U = Row → U → Outcome Bool × U

-- sqlite3_exec with a callback and its context: the code, the error message (a pointer into memory of
-- sqlite3, and its text), and the context as the callback left it. `no_exec` is the call with no
-- callback.
pub record ExecApi (W U : Type 0) : Type 0 where
  pub exec :
      Handle
      → String
      → (Row → ExecContext U → ℤ × ExecContext U)
      → ExecContext U
      → W
      → Code × Option ℕ × ExecContext U × W
  pub no_exec : Handle → String → W → Code × Option ℕ × W
  pub message : ℕ → W → String
  pub free : Option ℕ → W → W

-- What the function returns or throws, none where its behaviour is undefined, with the user's state and that of sqlite3.
pub record After (U W : Type 0) : Type 0 where
  pub result : Option (Outcome (Unit {0}))
  pub user : U
  pub world : W

finish_call : {U : Type 0} → ExecContext U → Outcome Bool × U → ℤ × ExecContext U
finish_call ctx (returned b, u) = (of_bool b, record ctx { user = u })
finish_call ctx (thrown e, u) = (pos 1, record ctx { user = u; ex = some e })

pub call_exec_handler : {U : Type 0} → ExecHandler U → Row → ExecContext U → ℤ × ExecContext U
unfolding finish_call
call_exec_handler fun row ctx = finish_call ctx (fun row ctx.user)

module _ {W U : Type 0} (api : ExecApi W U) where
  -- error(rv, errmsg) makes a std::runtime_error of the text, which is undefined where there is none.
  what_of : Code → Option ℕ → W → Option (Outcome (Unit {0}))
  what_of rv none w = none
  what_of rv (some p) w = some (thrown (error rv (api.message p w)))

  -- `auto ex = error(rv, errmsg); sqlite3_free(errmsg); throw ex;`, unless the code is SQLITE_OK
  end_exec : Code → Option ℕ → U → W → After U W
  unfolding what_of
  end_exec rv errmsg u w =
      if is_ok rv
      then record { result = some (returned tt); user = u; world = w }
      else record { result = what_of rv errmsg w; user = u; world = api.free errmsg w }

  -- void exec(const char *sql)
  pub exec_plain : Handle → String → U → W → After U W
  unfolding end_exec
  exec_plain h sql u w = let (rv, errmsg, w') = api.no_exec h sql w in end_exec rv errmsg u w'

  rethrow_or : Option Exception → Code → Option ℕ → U → W → After U W
  unfolding end_exec
  rethrow_or (some e) rv errmsg u w = record { result = some (thrown e); user = u; world = w }
  rethrow_or none rv errmsg u w = end_exec rv errmsg u w

  -- void exec(const char *sql, const exec_handler_t &fun)
  pub exec : Handle → String → Option (ExecHandler U) → U → W → After U W
  unfolding exec_plain rethrow_or call_exec_handler
  exec h sql none u w = exec_plain h sql u w
  exec h sql (some fun) u w =
      let (rv, errmsg, ctx, w') =
        api.exec h sql (call_exec_handler fun) (record { ex = none; user = u }) w in
      rethrow_or ctx.ex rv errmsg ctx.user w'
