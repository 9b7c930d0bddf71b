-- ===== src/Tests/Objects.antt =====
-- A sqlite3 with hooks, and with one key for functions and one for collations; a connection on it; and the
-- theorems at those.
use mathlib.Core.Logic.{ite}
use mathlib.Core.Bool.{Bool-discrete}
use mathlib.Core.List.{Mem, mem-cons_self, mem-cons_of_mem}
use sqxx.Base.{
  ℕ, ◌≡◌, ◌≢◌, refl, Bool, true, false, Option, none, some, List, [], ◌∷◌, ltb, ◌⊎◌, inl, inr,
  if◌then◌else◌,
}
use sqxx.Base.Int.{ℤ, pos, negsuc}
use sqxx.Effect.{Code, sqlite_ok, sqlite_error, sqlite_misuse, is_ok}
use sqxx.Heap.{Heap, alive, unused, delete}
use sqxx.Slots.{Table, set_slot}
use sqxx.Slots.Moves.{union, destroy_slots}
use sqxx.Statement.{Handle}
use sqxx.Connection.Handlers.{Hook, progress, commit, busy, wal, Hook-discrete, HookApi, slot}
use sqxx.Connection.Handlers.Safety.{enabled}
use sqxx.Connection.Handlers.Requests.{sets, busy_timeouts}
use sqxx.Registration.{Kind, nothing, Destroy, run_destroy, RegisterApi}
use sqxx.Registration.Registry.{
  creates_function, creates_aggregate, creates_collation, removes_collation,
}
use sqxx.Registration.Registry.Laws.{kept, entered_at}
use sqxx.Owners.{Step, handles, registers, Connected, take_steps, finish}
use sqxx.Owners.Laws.{ConnectedLaws}
use sqxx.Owners.Ended.{Owned, take_steps-Owned, finish-take_steps}

record Sqlite : Type 0 where
  hooked : Hook → Option ℕ
  owned : Table Bool
  entered : Bool → Kind

abbrev hook_set : Hook → Option ℕ → Sqlite → Sqlite
hook_set k p w = record w { hooked = λ j. ite (Hook-discrete k j) p (w.hooked j) }

abbrev timeout : ℤ → Sqlite → Code × Sqlite
timeout (pos ms) w = (sqlite_ok, hook_set busy none w)
timeout (negsuc ms) w = (sqlite_error, w)

abbrev hooker : HookApi Sqlite
hooker = record {
  errstr = λ c. "error";
  hook = λ k h vinst p w. hook_set k (enabled k vinst p) w;
  busy_timeout = λ h ms w. timeout ms w;
  wal_autocheckpoint = λ h frames w. (sqlite_ok, hook_set wal none w);
}

-- Functions have the key `true`.
abbrev enter : Bool → Kind → Option ℕ → Destroy → Heap → Sqlite → Code × Heap × Sqlite
enter k kind p f h w = (
  sqlite_ok,
  delete (w.owned k) h,
  record w {
    owned = set_slot Bool-discrete k (kept p f) w.owned;
    entered = entered_at Bool-discrete k kind w.entered;
  },
)

abbrev enter_function : Bool → Kind → Option ℕ → Destroy → Heap → Sqlite → Code × Heap × Sqlite
enter_function true kind p f h w = enter true kind p f h w
enter_function false kind p f h w = (sqlite_misuse, run_destroy f h, w)

abbrev registry : RegisterApi Sqlite
registry = record {
  errstr = λ c. "error";
  create_function_v2 = λ handle name argc kind p f h w. enter_function (ltb argc 128) kind p f h w;
  create_collation_v2 = λ handle name kind p f h w. enter false kind p f h w;
}

timeout-registered :
    (j : Hook) (ms : ℤ) (w : Sqlite)
    → (timeout ms w).1.hooked j ≡ (
        if is_ok (timeout ms w).0 then ite (Hook-discrete busy j) none (w.hooked j) else w.hooked j)
timeout-registered j (pos ms) w = refl
timeout-registered j (negsuc ms) w = refl

timeout-owned : (ms : ℤ) (w : Sqlite) → (timeout ms w).1.owned ≡ w.owned
timeout-owned (pos ms) w = refl
timeout-owned (negsuc ms) w = refl

function_works :
    (b : Bool) (kind : Kind) (p : Option ℕ) (f : Destroy) (h : Heap) (w : Sqlite)
    → is_ok (enter_function b kind p f h w).0 ≡ true
    → ((enter_function b kind p f h w).1 ≡ delete (w.owned true) h)
      × ((enter_function b kind p f h w).2.owned ≡ set_slot Bool-discrete true (kept p f) w.owned)
      × ((enter_function b kind p f h w).2.entered ≡ entered_at Bool-discrete true kind w.entered)
function_works true kind p f h w e = (refl, refl, refl)
function_works false kind p f h w e = absurd (cc)

function_fails :
    (b : Bool) (kind : Kind) (p : Option ℕ) (f : Destroy) (h : Heap) (w : Sqlite)
    → is_ok (enter_function b kind p f h w).0 ≡ false
    → ((enter_function b kind p f h w).1 ≡ run_destroy f h)
      × ((enter_function b kind p f h w).2.owned ≡ w.owned)
      × ((enter_function b kind p f h w).2.entered ≡ w.entered)
function_fails true kind p f h w e = absurd (cc)
function_fails false kind p f h w e = (refl, refl, refl)

function_hooked :
    (b : Bool) (kind : Kind) (p : Option ℕ) (f : Destroy) (h : Heap) (w : Sqlite)
    → (enter_function b kind p f h w).2.hooked ≡ w.hooked
function_hooked true kind p f h w = refl
function_hooked false kind p f h w = refl

true-ne-false : ◌≢◌ {A = Bool} true false
true-ne-false e = cc

abbrev both : List Bool
both = true ∷ false ∷ []

among : (b : Bool) → Mem b both
among true = mem-cons_self
among false = mem-cons_of_mem true mem-cons_self

abbrev close : Handle → Heap × Sqlite → Heap × Sqlite
close handle (h, w) = (
  destroy_slots Bool-discrete both w.owned h,
  record { hooked = λ k. none; owned = λ k. none; entered = λ k. nothing },
)

abbrev sqlite-ConnectedLaws : ConnectedLaws hooker registry Bool-discrete 4 close
sqlite-ConnectedLaws = record {
  hooked = record {
    registered = λ k h w. w.hooked k;
    hooks = λ k j h vinst p w. refl;
    busies = λ j h ms w. timeout-registered j ms w;
    wals = λ j h frames w. refl;
  };
  registry = record {
    function_key = λ name argc. true;
    collation_key = λ name. false;
    owned = λ w. w.owned;
    entered = λ w. w.entered;
    function_works = λ name argc kind p f h w e. function_works (ltb argc 128) kind p f h w e;
    function_fails = λ name argc kind p f h w e. function_fails (ltb argc 128) kind p f h w e;
    collation_works = λ name kind p f h w e. (refl, refl, refl);
    collation_fails = λ name kind p f h w e. absurd (true-ne-false e);
  };
  functions_stay = record {
    hooks = λ k h vinst p w. refl;
    busies = λ h ms w. timeout-owned ms w;
    wals = λ h frames w. refl;
  };
  hooks_stay = λ k. record {
    functions = λ h name argc kind p f heap w i. function_hooked (ltb argc 128) kind p f heap w i k;
    collations = λ h name kind p f heap w. refl;
  };
  keys = λ w. both;
  listed = λ w k q e. among k;
  destroys = λ h w. refl;
  unhooks = λ h w k. refl;
}

abbrev begun : Connected Sqlite
begun = record {
  callbacks = none;
  heap = record { next = 0; cell = λ q. unused; broken = false };
  world = record { hooked = λ k. none; owned = λ k. none; entered = λ k. nothing };
}

begun-Owned : Owned hooker registry Bool-discrete 4 close sqlite-ConnectedLaws begun
begun-Owned = record {
  exact = λ k. inl refl;
  owns = record {
    living = λ k p e. absurd (nothing k p e);
    once = λ k j p e f. absurd (nothing k p e);
    fresh = λ p f. refl;
    owner = λ p a. absurd (cc);
    whole = refl;
  };
}
  where
    nothing : (k : Hook ⊎ Bool) (p : ℕ) → union (slot none) (λ b. none) k ≢ some p
    nothing (inl k) p e = cc
    nothing (inr b) p e = cc

abbrev steps : List (Step ℕ)
steps =
    handles (sets commit (pos 0) true)
    ∷ registers (creates_function "f" 2 50)
    ∷ registers (creates_collation "c" 51)
    ∷ handles (sets busy (pos 0) true)
    ∷ registers (creates_aggregate "g" 200 52)
    ∷ handles (sets progress (pos 0) true)
    ∷ handles (busy_timeouts (pos 9))
    ∷ registers (creates_function "f" 2 53)
    ∷ registers (removes_collation "c")
    ∷ handles (sets commit (pos 0) true)
    ∷ []

take_steps-Owned_example :
    Owned hooker registry Bool-discrete 4 close sqlite-ConnectedLaws
      (take_steps hooker registry (some 4) steps begun)
take_steps-Owned_example =
    take_steps-Owned hooker registry Bool-discrete 4 close sqlite-ConnectedLaws steps begun
      begun-Owned

abbrev last : Heap × Sqlite
last = finish close (some 4) (take_steps hooker registry (some 4) steps begun)

finish-take_steps_example :
    ((q : ℕ) → last.0.cell q ≢ alive)
    × (last.0.broken ≡ false)
    × ((k : Hook) → last.1.hooked k ≡ none)
finish-take_steps_example =
    finish-take_steps hooker registry Bool-discrete 4 close sqlite-ConnectedLaws steps begun
      begun-Owned
