-- ===== src/Connection/Execution/Rethrow.antt =====
-- What becomes of an exception that the row handler throws.
use sqxx.Base.{ℕ, String, Bool, true, false, ◌≡◌, ◌∙◌, refl, ap, none, some, List, [], ◌∷◌, ◌++◌}
use sqxx.Base.Int.{ℤ, pos}
use sqxx.Effect.{sqlite_abort, Exception, error, Outcome, returned, thrown}
use sqxx.Statement.{Handle}
use sqxx.Statement.Binding.{is_zero}
use sqxx.Connection.Execution.{
  Row, ExecContext, ExecHandler, ExecApi, exec, call_exec_handler, finish_call,
}

module _ {U : Type 0} where
  proceed : ℤ × ExecContext U → (ExecContext U → Bool × ExecContext U) → Bool × ExecContext U
  proceed (answer, ctx) rest = elim (is_zero answer) [ true ↦ rest ctx | false ↦ (true, ctx) ]

  -- sqlite3 calls the callback for each row until one call gives a number that is not 0; the flag says
  -- that one did.
  unfoldable pub deliver :
      (Row → ExecContext U → ℤ × ExecContext U) → List Row → ExecContext U → Bool × ExecContext U
  unfolding proceed
  deliver callback [] ctx = (false, ctx)
  deliver callback (row ∷ rows) ctx = proceed (callback row ctx) (deliver callback rows)

  -- The handler takes these rows one after another, and answers false to each.
  pub data Takes (fun : ExecHandler U) : List Row → U → U → Type 0 where
    none_left : {u : U} → Takes fun [] u u
    one_more :
        {row : Row} {rows : List Row} {u v z : U}
        → fun row u ≡ (returned false, v)
        → Takes fun rows v z
        → Takes fun (row ∷ rows) u z

-- What sqlite3 documents of sqlite3_exec for a statement with these rows; it has memory for the message of an error.
pub record Delivers {W U : Type 0} (api : ExecApi W U) (h : Handle) (sql : String) (w : W)
    (rows : List Row) : Type 0 where
  pub context :
      (callback : Row → ExecContext U → ℤ × ExecContext U) (ctx : ExecContext U)
      → (api.exec h sql callback ctx w).2 ≡ (deliver callback rows ctx).1
  pub aborted :
      (callback : Row → ExecContext U → ℤ × ExecContext U) (ctx : ExecContext U)
      → (deliver callback rows ctx).0 ≡ true
      → ((api.exec h sql callback ctx w).0 ≡ sqlite_abort)
        × ((p : ℕ) × ((api.exec h sql callback ctx w).1 ≡ some p))

module _ {W U : Type 0} (api : ExecApi W U) where
  deliver-append :
      (fun : ExecHandler U) (taken rows : List Row) {u v : U}
      → Takes fun taken u v
      → deliver (call_exec_handler fun) (taken ++ rows) (record { ex = none; user = u })
        ≡ deliver (call_exec_handler fun) rows (record { ex = none; user = v })
  unfolding deliver call_exec_handler
  deliver-append fun [] rows none_left = refl
  deliver-append fun (row ∷ taken) rows (one_more e t) = rw e (deliver-append fun taken rows t)

  deliver-stopping :
      (fun : ExecHandler U) (taken rows : List Row) (row : Row) {u v : U} (r : Outcome Bool × U)
      (ctx : ExecContext U)
      → Takes fun taken u v
      → fun row v ≡ r
      → finish_call (record { ex = none; user = v }) r ≡ (pos 1, ctx)
      → deliver (call_exec_handler fun) (taken ++ (row ∷ rows)) (record { ex = none; user = u })
        ≡ (true, ctx)
  unfolding deliver call_exec_handler
  deliver-stopping fun taken rows row r ctx t f e =
      deliver-append fun taken (row ∷ rows) t ∙ rw (f, e)

  -- For a sqlite3_exec that delivers rows as documented, and a handler that answers false to the
  -- first rows and throws at the next: `exec()` throws that same exception, with what the handler
  -- had written by then, so that no later row was handed to it; and sqlite3 is left as sqlite3_exec
  -- left it: its error message is not freed.
  pub exec-rethrows :
      (fun : ExecHandler U) (h : Handle) (sql : String) (taken rows : List Row) (row : Row)
      (e : Exception) (u v z : U) (w : W)
      → Delivers api h sql w (taken ++ (row ∷ rows))
      → Takes fun taken u v
      → fun row v ≡ (thrown e, z)
      → let r = api.exec h sql (call_exec_handler fun) (record { ex = none; user = u }) w in
        exec api h sql (some fun) u w ≡ record { result = some (thrown e); user = z; world = r.3 }
  unfolding exec
  exec-rethrows fun h sql taken rows row e u v z w d t f =
      let stopped =
        deliver-stopping fun taken rows row (thrown e, z) (record { ex = some e; user = z }) t f
          refl in
      let context = d.context (call_exec_handler fun) (record { ex = none; user = u }) in
      rw (context, stopped)

  -- For a sqlite3_exec that delivers rows as documented, and a handler that answers false to the
  -- first rows and true to the next: `exec()` throws SQLITE_ABORT with the message of sqlite3, which
  -- it frees, and no later row was handed to the handler.
  pub exec-aborts :
      (fun : ExecHandler U) (h : Handle) (sql : String) (taken rows : List Row) (row : Row)
      (u v z : U) (w : W)
      → Delivers api h sql w (taken ++ (row ∷ rows))
      → Takes fun taken u v
      → fun row v ≡ (returned true, z)
      → let r = api.exec h sql (call_exec_handler fun) (record { ex = none; user = u }) w in
        (p : ℕ) × (r.1 ≡ some p)
        × (exec api h sql (some fun) u w ≡ record {
          result = some (thrown (error sqlite_abort (api.message p r.3)));
          user = z;
          world = api.free (some p) r.3;
        })
  unfolding exec
  exec-aborts fun h sql taken rows row u v z w d t f =
      let stopped =
        deliver-stopping fun taken rows row (returned true, z) (record { ex = none; user = z }) t f
          refl in
      let context = d.context (call_exec_handler fun) (record { ex = none; user = u }) in
      let (aborted, (p, message)) =
        d.aborted (call_exec_handler fun) (record { ex = none; user = u })
          (ap (λ t. t.0) stopped) in
      (p, message, rw (context, stopped, aborted, message) refl)
