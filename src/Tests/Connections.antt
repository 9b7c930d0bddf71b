-- ===== src/Tests/Connections.antt =====
-- A sqlite3 that opens databases, and one that has hooks, and the theorems at them.
use mathlib.Core.Logic.{ite}
use text.Mathlib.Text.{◌==◌}
use sqxx.Base.{
  inl, List, ◌≢◌, ℕ, suc, ◌≡◌, refl, Bool, true, false, ◌||◌, Option, none, some, [], ◌∷◌, String,
  if◌then◌else◌,
}
use sqxx.Base.Int.{ℤ, pos, negsuc}
use sqxx.Effect.{Code, sqlite_ok, sqlite_error, sqlite_nomem, is_ok, Obj}
use sqxx.Heap.{unused, alive}
use sqxx.Statement.{Handle}
use sqxx.Connection.{OpenApi, Connection, closed, open_file, destroy}
use sqxx.Connection.Accounts.{owns, OpenLaws}
use sqxx.Connection.Lifetime.{opens, closes, perform_all, destroy-open_file, destroy-perform_all}
use sqxx.Connection.Handlers.{
  set_commit_handler, Hook, progress, commit, busy, wal, Hook-discrete, HookApi, State,
}
use sqxx.Connection.Handlers.Active.{IsExact, active, requested_all, serve_all-refines}
use sqxx.Connection.Handlers.Requests.{Request, setter, sets, busy_timeouts, serve_all}
use sqxx.Connection.Handlers.Teardown.{tear_down, tear_down-IsSafe}
use sqxx.Connection.Handlers.Safety.{enabled, HookLaws, IsSafe, serve_all-IsSafe}

record Databases : Type 0 where
  next : ℕ
  opened : ℕ → Bool

-- The file "" gives a connection and an error.
abbrev opened_by : Bool → String → Databases → Code × Handle × Databases
opened_by true file w = (sqlite_nomem, none, w)
opened_by false file w = (
  if file == "" then sqlite_error else sqlite_ok,
  some w.next,
  record { next = suc w.next; opened = λ q. owns (some w.next) q || w.opened q },
)

abbrev opener : OpenApi Databases
opener = record {
  errstr = λ c. "error";
  open_v2 = λ file flags w. opened_by (w.opened w.next) file w;
  close_v2 = λ h w. record w { opened = λ q. if owns h q then false else w.opened q };
  close = λ h w. (sqlite_ok, record w { opened = λ q. if owns h q then false else w.opened q });
}

opened_by-fresh :
    (file : String) (w : Databases) (b : Bool) (p : ℕ)
    → w.opened w.next ≡ b
    → (opened_by b file w).1 ≡ some p
    → w.opened p ≡ false
opened_by-fresh file w true p e f = absurd (cc)
opened_by-fresh file w false p e f = cc

opened_by-opens :
    (file : String) (w : Databases) (b : Bool) (q : ℕ)
    → (opened_by b file w).2.opened q ≡ owns (opened_by b file w).1 q || w.opened q
opened_by-opens file w true q = refl
opened_by-opens file w false q = refl

abbrev opener-OpenLaws : OpenLaws opener
opener-OpenLaws = record {
  is_open = λ q w. w.opened q;
  fresh = λ file flags w p e. opened_by-fresh file w (w.opened w.next) p refl e;
  opens = λ file flags w q. opened_by-opens file w (w.opened w.next) q;
  closes = λ h w q. refl;
  closes_sync = λ h w q. refl;
}

abbrev no_database : Databases
no_database = record { next = 0; opened = λ q. false }

abbrev one_open : Obj Connection Databases
one_open = record {
  self = record { handle = some 4 };
  world = record { next = 5; opened = λ q. owns (some 4) q };
}

destroy-open_file_example :
    (destroy opener (open_file opener "b.db" 0 one_open).1).world.opened 4 ≡ true
destroy-open_file_example = destroy-open_file opener opener-OpenLaws "b.db" 0 one_open 4

destroy-perform_all_example :
    (destroy opener (
        perform_all opener
          (opens "" 2 ∷ closes ∷ opens "a.db" 2 ∷ [])
          (record { self = closed; world = no_database }))).world.opened
      1
    ≡ false
unfolding perform_all open_file
destroy-perform_all_example =
    destroy-perform_all opener opener-OpenLaws (opens "" 2 ∷ closes ∷ opens "a.db" 2 ∷ [])
      no_database 1 (refl, (tt, (refl, tt)))

-- The pointers that the hooks have. A negative timeout is refused.
abbrev Hooks : Type 0
Hooks = Hook → Option ℕ

abbrev without : Hook → Hooks → Hooks
without k w j = ite (Hook-discrete k j) none (w j)

abbrev busy_after : ℤ → Hooks → Code × Hooks
busy_after (pos ms) w = (sqlite_ok, without busy w)
busy_after (negsuc ms) w = (sqlite_error, w)

abbrev hooker : HookApi Hooks
hooker = record {
  errstr = λ c. "error";
  hook = λ k h vinst p w j. ite (Hook-discrete k j) (enabled k vinst p) (w j);
  busy_timeout = λ h ms w. busy_after ms w;
  wal_autocheckpoint = λ h frames w. (sqlite_ok, without wal w);
}

busy_after_lem :
    (j : Hook) (ms : ℤ) (w : Hooks)
    → (busy_after ms w).1 j
      ≡ (if is_ok (busy_after ms w).0 then ite (Hook-discrete busy j) none (w j) else w j)
busy_after_lem j (pos ms) w = refl
busy_after_lem j (negsuc ms) w = refl

abbrev hooker-HookLaws : HookLaws hooker
hooker-HookLaws = record {
  registered = λ k h w. w k;
  hooks = λ k j h vinst p w. refl;
  busies = λ j h ms w. busy_after_lem j ms w;
  wals = λ j h frames w. refl;
}

abbrev no_hook : State Hooks
no_hook = record {
  handle = some 4;
  callbacks = none;
  heap = record { next = 0; cell = λ q. unused; broken = false };
  world = λ k. none;
}

no_hook-IsSafe : IsSafe hooker hooker-HookLaws no_hook
no_hook-IsSafe = record {
  pointed = λ k p e. e;
  owns = record {
    living = λ k p e. absurd (cc);
    once = λ k j p e f. absurd (cc);
    fresh = λ p f. refl;
    owner = λ p a. absurd (cc);
    whole = refl;
  };
}

serve_all-IsSafe_example : IsSafe hooker hooker-HookLaws (
    serve_all hooker
      (sets commit (pos 0) true
        ∷ sets commit (pos 0) true
        ∷ sets busy (pos 0) true
        ∷ busy_timeouts (negsuc 0)
        ∷ busy_timeouts (pos 9)
        ∷ sets commit (pos 0) false
        ∷ [])
      no_hook)
serve_all-IsSafe_example =
    serve_all-IsSafe hooker hooker-HookLaws
      (sets commit (pos 0) true
        ∷ sets commit (pos 0) true
        ∷ sets busy (pos 0) true
        ∷ busy_timeouts (negsuc 0)
        ∷ busy_timeouts (pos 9)
        ∷ sets commit (pos 0) false
        ∷ [])
      no_hook no_hook-IsSafe

abbrev requests : List Request
requests =
    sets commit (pos 0) true
    ∷ sets progress (pos 0) true
    ∷ sets progress (pos 9) true
    ∷ sets busy (pos 0) true
    ∷ busy_timeouts (negsuc 0)
    ∷ busy_timeouts (pos 9)
    ∷ []

serve_all-refines_example :
    let s = serve_all hooker requests no_hook in
    IsExact hooker hooker-HookLaws s
    × (active hooker hooker-HookLaws s ≡ requested_all hooker requests no_hook (λ k. false))
serve_all-refines_example =
    serve_all-refines hooker hooker-HookLaws requests no_hook (λ k. inl refl)

-- A connection with a commit handler, and a sqlite3 that forgets its hooks when it is closed.
abbrev one_hook : State Hooks
unfolding serve_all
one_hook = serve_all hooker (sets commit (pos 0) true ∷ []) no_hook

tear_down-IsSafe_example :
    ((k : Hook) → (tear_down (λ h w k. none) one_hook).world k ≡ none)
    × ((q : ℕ) → (tear_down (λ h w k. none) one_hook).heap.cell q ≢ alive)
    × ((tear_down (λ h w k. none) one_hook).heap.broken ≡ false)
unfolding one_hook set_commit_handler setter
tear_down-IsSafe_example =
    tear_down-IsSafe hooker hooker-HookLaws (λ h w k. none) 4 one_hook (λ k. refl) refl
      (serve_all-IsSafe hooker hooker-HookLaws (sets commit (pos 0) true ∷ []) no_hook
        no_hook-IsSafe)
