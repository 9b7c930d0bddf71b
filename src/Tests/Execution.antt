-- ===== src/Tests/Execution.antt =====
-- A sqlite3 that hands two rows to its callback, and one that prepares statements, and the theorems at
-- them.
use sqxx.Base.{
  ℕ, zero, suc, ◌≡◌, refl, Bool, true, false, Option, none, some, List, [], ◌∷◌, if◌then◌else◌,
}
use sqxx.Effect.{sqlite_ok, sqlite_abort, bad_alloc, error, Outcome, returned, thrown}
use sqxx.Connection.Execution.{Row, ExecApi, exec}
use sqxx.Connection.Execution.Rethrow.{
  deliver, none_left, one_more, Delivers, exec-rethrows, exec-aborts,
}
use sqxx.Tests.StatementApi.{Sqlite, breaking}

abbrev row : Row
row = record { values = none ∷ []; columns = "a" ∷ [] }

abbrev rows : List Row
rows = row ∷ row ∷ []

-- The state is the list of the messages freed.
abbrev executor : ExecApi (List (Option ℕ)) ℕ
executor = record {
  exec = λ h sql callback ctx w.
      let (stopped, ctx') = deliver callback rows ctx in
      (if stopped then sqlite_abort else sqlite_ok, some 1, ctx', w);
  no_exec = λ h sql w. (sqlite_ok, none, w);
  message = λ m w. "query aborted";
  free = λ m w. m ∷ w;
}

rows-Delivers : Delivers executor none "select" [] rows
unfolding deliver
rows-Delivers = record {
  context = λ callback ctx. refl;
  aborted = λ callback ctx e. rw e (refl, (1, refl));
}

-- Counts the rows, and ends at the second.
abbrev ends : Outcome Bool → Row → ℕ → Outcome Bool × ℕ
ends how r zero = (returned false, 1)
ends how r (suc n) = (how, suc (suc n))

exec-rethrows_example :
    exec executor none "select" (some (ends (thrown bad_alloc))) 0 []
    ≡ record { result = some (thrown bad_alloc); user = 2; world = [] }
exec-rethrows_example =
    exec-rethrows executor (ends (thrown bad_alloc)) none "select" (row ∷ []) [] row bad_alloc 0 1 2
      [] rows-Delivers (one_more refl none_left) refl

exec-aborts_example :
    (p : ℕ) × (some 1 ≡ some p)
    × (exec executor none "select" (some (ends (returned true))) 0 [] ≡ record {
      result = some (thrown (error sqlite_abort "query aborted"));
      user = 2;
      world = some p ∷ [];
    })
exec-aborts_example =
    exec-aborts executor (ends (returned true)) none "select" (row ∷ []) [] row 0 1 2 []
      rows-Delivers (one_more refl none_left) refl

-- The first step of the statement fails.
abbrev failing : Sqlite
failing = record breaking { rest = [] }
