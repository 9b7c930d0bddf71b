-- ===== src/Tests/Preparer.antt =====
-- A sqlite3 that prepares one statement at a time, and what it does to the statements that are open.
use text.Mathlib.Text.{◌==◌}
use sqxx.Base.{ℕ, ◌≡◌, ap, refl, Bool, true, false, not, ◌||◌, none, some, List, [], ◌∷◌}
use sqxx.Effect.{Code, sqlite_ok, sqlite_error, sqlite_nomem, is_ok}
use sqxx.Statement.{Handle}
use sqxx.Connection.Queries.{PrepareApi}
use sqxx.Connection.Queries.Unwinding.{including, PrepareLaws}
use sqxx.Session.Laws.{is_fit, SessionLaws}
use sqxx.Statement.Methods.{
  Native, binds_null, binds_int, binds_int64, binds_double, binds_text64, binds_blob64,
  binds_zeroblob64, reads_int, reads_int64, reads_double, reads_text, reads_blob, reads_bytes,
  invoke,
}
use sqxx.Tests.StatementApi.{Sqlite, api, step_rows, ending, used}

-- The text "" is refused.
abbrev pub prepared_by : Bool → Bool → Sqlite → Code × Handle × Sqlite
prepared_by true empty w = (sqlite_nomem, none, w)
prepared_by false true w = (sqlite_error, none, w)
prepared_by false false w = (sqlite_ok, some 0, record w { opened = including (some 0) w.opened })

abbrev pub preparer : PrepareApi Sqlite
preparer = record {
  errstr = λ c. "error";
  prepare_v2 = λ h sql w. prepared_by (w.opened 0) (sql == "") w;
}

pub prepared_by-prepares :
    (b e : Bool) (w : Sqlite) (q : ℕ)
    → (prepared_by b e w).2.opened q ≡ including (prepared_by b e w).1 w.opened q
prepared_by-prepares true e w q = refl
prepared_by-prepares false true w q = refl
prepared_by-prepares false false w q = refl

pub prepared_by-fresh :
    (b e : Bool) (w : Sqlite) (p : ℕ)
    → w.opened 0 ≡ b
    → (prepared_by b e w).1 ≡ some p
    → w.opened p ≡ false
prepared_by-fresh true e w p f g = absurd (cc)
prepared_by-fresh false true w p f g = absurd (cc)
prepared_by-fresh false false w p f g = cc

pub prepared_by-fails :
    (b e : Bool) (w : Sqlite) → is_ok (prepared_by b e w).0 ≡ false → (prepared_by b e w).1 ≡ none
prepared_by-fails true e w f = refl
prepared_by-fails false true w f = refl
prepared_by-fails false false w f = absurd (cc)

pub step_rows-keeps :
    (c : Code) (l : List ℕ) (w : Sqlite)
    → let w' = (step_rows c l w).1 in
      (w'.opened ≡ w.opened) × (w'.stray ≡ w.stray) × (w'.databases ≡ w.databases)
step_rows-keeps c [] w = (refl, refl, refl)
step_rows-keeps c (n ∷ l) w = (refl, refl, refl)

abbrev pub preparer-PrepareLaws : PrepareLaws preparer api
preparer-PrepareLaws = record {
  is_open = λ w q. w.opened q;
  prepares = λ h sql w q. prepared_by-prepares (w.opened 0) (sql == "") w q;
  fresh = λ h sql w p e. prepared_by-fresh (w.opened 0) (sql == "") w p refl e;
  fails = λ h sql w e. prepared_by-fails (w.opened 0) (sql == "") w e;
  steps = λ h w q. ap (λ o. o q) (step_rows-keeps (ending w) w.rest (used h w)).0;
  finalizes = λ p w q. refl;
}

pub prepared_by-stray : (b e : Bool) (w : Sqlite) → (prepared_by b e w).2.stray ≡ w.stray
prepared_by-stray true e w = refl
prepared_by-stray false true w = refl
prepared_by-stray false false w = refl

-- Every call on a statement but sqlite3_finalize keeps what is open, and sees whether its own is.
pub invoke-keeps :
    (c : Native ℕ) (h : Handle) (w : Sqlite)
    → let w' = invoke api c h w in
      (w'.opened ≡ w.opened)
      × (w'.stray ≡ w.stray || not (is_fit w.opened h))
      × (w'.databases ≡ w.databases)
invoke-keeps Native.steps h w = step_rows-keeps (ending w) w.rest (used h w)
invoke-keeps Native.resets h w = (refl, refl, refl)
invoke-keeps Native.clears_bindings h w = (refl, refl, refl)
invoke-keeps (binds_null at) h w = (refl, refl, refl)
invoke-keeps (binds_int at z) h w = (refl, refl, refl)
invoke-keeps (binds_int64 at z) h w = (refl, refl, refl)
invoke-keeps (binds_double at d) h w = (refl, refl, refl)
invoke-keeps (binds_text64 at bytes n l) h w = (refl, refl, refl)
invoke-keeps (binds_blob64 at bytes n l) h w = (refl, refl, refl)
invoke-keeps (binds_zeroblob64 at n) h w = (refl, refl, refl)
invoke-keeps (reads_int i) h w = (refl, refl, refl)
invoke-keeps (reads_int64 i) h w = (refl, refl, refl)
invoke-keeps (reads_double i) h w = (refl, refl, refl)
invoke-keeps (reads_text i) h w = (refl, refl, refl)
invoke-keeps (reads_blob i) h w = (refl, refl, refl)
invoke-keeps (reads_bytes i) h w = (refl, refl, refl)

abbrev pub preparer-SessionLaws : SessionLaws preparer api
preparer-SessionLaws = record {
  base = preparer-PrepareLaws;
  closes_none = λ c h w q. ap (λ o. o q) (invoke-keeps c h w).0;
  strays = λ w. w.stray;
  prepares = λ h sql w. prepared_by-stray (w.opened 0) (sql == "") w;
  given = λ c h w. (invoke-keeps c h w).1;
  finalized = λ h w. refl;
}

pub prepared_by-databases :
    (b e : Bool) (w : Sqlite) → (prepared_by b e w).2.databases ≡ w.databases
prepared_by-databases true e w = refl
prepared_by-databases false true w = refl
prepared_by-databases false false w = refl
