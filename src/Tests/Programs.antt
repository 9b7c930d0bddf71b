-- ===== src/Tests/Programs.antt =====
-- A sqlite3 that opens one database at a time, a whole program on it, and the theorem at that.
use text.Mathlib.Text.{◌==◌}
use sqxx.Base.{ℕ, ◌≡◌, ap, refl, Bool, true, false, ◌||◌, none, some, if◌then◌else◌}
use sqxx.Effect.{Code, sqlite_ok, sqlite_error}
use sqxx.Statement.{Handle}
use sqxx.Connection.{OpenApi}
use sqxx.Connection.Accounts.{OpenLaws, owns}
use sqxx.Session.Scope.{usage, run_scope, run_scope_lem}
use sqxx.Session.Connected.{Ignores, ProgramLaws, run_program, run_program_lem}
use sqxx.Tests.StatementApi.{Sqlite, api, two_rows}
use sqxx.Tests.Preparer.{preparer, prepared_by-databases, invoke-keeps, preparer-SessionLaws}

abbrev open_if : Bool → Sqlite → Code × Handle × Sqlite
open_if true w = (sqlite_error, none, w)
open_if false w =
    (sqlite_ok, some 3, record w { databases = λ q. owns (some 3) q || w.databases q })

abbrev close_database : Handle → Sqlite → Sqlite
close_database h w = record w { databases = λ q. if owns h q then false else w.databases q }

abbrev opener : OpenApi Sqlite
opener = record {
  errstr = λ c. "error";
  open_v2 = λ file flags w. open_if (w.databases 3) w;
  close_v2 = close_database;
  close = λ h w. (sqlite_ok, close_database h w);
}

open_if-fresh :
    (b : Bool) (w : Sqlite) (p : ℕ)
    → w.databases 3 ≡ b
    → (open_if b w).1 ≡ some p
    → w.databases p ≡ false
open_if-fresh true w p e f = absurd (cc)
open_if-fresh false w p e f = cc

open_if-opens :
    (b : Bool) (w : Sqlite) (q : ℕ)
    → (open_if b w).2.databases q ≡ owns (open_if b w).1 q || w.databases q
open_if-opens true w q = refl
open_if-opens false w q = refl

open_if-keeps :
    (b : Bool) (w : Sqlite)
    → let w' = (open_if b w).2 in (w'.opened ≡ w.opened) × (w'.stray ≡ w.stray)
open_if-keeps true w = (refl, refl)
open_if-keeps false w = (refl, refl)

abbrev opener-OpenLaws : OpenLaws opener
opener-OpenLaws = record {
  is_open = λ q w. w.databases q;
  fresh = λ file flags w p e. open_if-fresh (w.databases 3) w p refl e;
  opens = λ file flags w q. open_if-opens (w.databases 3) w q;
  closes = λ h w q. refl;
  closes_sync = λ h w q. refl;
}

databases-Ignores : (q : ℕ) → Ignores preparer api (λ w. w.databases q)
databases-Ignores q = record {
  prepares = λ h sql w. ap (λ d. d q) (prepared_by-databases (w.opened 0) (sql == "") w);
  invokes = λ c h w. ap (λ d. d q) (invoke-keeps c h w).2;
  finalizes = λ h w. refl;
}

abbrev opener-ProgramLaws : ProgramLaws opener preparer api
opener-ProgramLaws = record {
  databases = opener-OpenLaws;
  statements = preparer-SessionLaws;
  apart = databases-Ignores;
  opens_none = λ file flags q w. ap (λ o. o q) (open_if-keeps (w.databases 3) w).0;
  closes_none = λ h q w. refl;
  opens_clean = λ file flags w. (open_if-keeps (w.databases 3) w).1;
  closes_clean = λ h w. refl;
}

-- The second query is given nothing while the first statement is open, and a program that goes on works
-- with the first.
abbrev last_world : Sqlite
last_world = run_program opener preparer api 0 ":memory:" 6 (usage 9) two_rows

run_program_lem_example :
    ((q : ℕ) → last_world.databases q ≡ false)
    × ((q : ℕ) → last_world.opened q ≡ two_rows.opened q)
    × (last_world.stray ≡ false)
run_program_lem_example =
    run_program_lem opener preparer api opener-ProgramLaws 0 ":memory:" 6 (usage 9) two_rows refl

-- In main() of examples/usage.cpp that query throws, and ends the scope.
abbrev scope_world : Sqlite
scope_world = (run_scope opener preparer api 0 ":memory:" 6 (usage 9) two_rows).1

run_scope_lem_example :
    ((q : ℕ) → scope_world.databases q ≡ false)
    × ((q : ℕ) → scope_world.opened q ≡ two_rows.opened q)
    × (scope_world.stray ≡ false)
run_scope_lem_example =
    run_scope_lem opener preparer api opener-ProgramLaws 0 ":memory:" 6 (usage 9) two_rows refl
