-- ===== src/Tests/Settings.antt =====
-- The options, limits and counters of a small sqlite3, and the theorems at them.
use mathlib.Core.Logic.{ite}
use sqxx.Base.{
  ℕ, ◌≤◌, ◌≡◌, refl, sym, Bool, true, false, not, ◌&&◌, Option, none, [], ◌∷◌, if◌then◌else◌, leb,
  arith,
}
use sqxx.Base.Int.{ℤ, pos, negsuc}
use sqxx.Effect.{Code, sqlite_ok, sqlite_misuse, is_ok, thrown, error}
use sqxx.Heap.{unused}
use sqxx.Config.{LogHook, log_handler, ConfigCall, handler, ConfigApi, State, setup}
use sqxx.Config.Settings.{
  handler_of, takes_any_time, handles, unhandles, multithreads, mmap_sizes, configure,
  configure_all,
}
use sqxx.Config.Safety.{pointer_after, ConfigLaws, IsSafe, configure_all-IsSafe}
use sqxx.Config.Startup.{StartupLaws, configure-setup}
use sqxx.Connection.Limits.{LimitId, LimitId-discrete, LimitApi}
use sqxx.Connection.Limits.Independence.{bounded, LimitLaws}
use sqxx.Counters.{Counter, StatusApi, CounterLaws}

record Options : Type 0 where
  ready : Bool
  pointers : LogHook → Option ℕ

abbrev config_if : Bool → ConfigCall → Options → Code × ℤ × Options
config_if true c w = (sqlite_misuse, pos 0, w)
config_if false c w = (
  sqlite_ok,
  pos 0,
  record w { pointers = λ j. pointer_after (handler_of c) true j (w.pointers j) },
)

abbrev library : ConfigApi Options
library = record {
  errstr = λ c. "error";
  initialize = λ w. record w { ready = true };
  shutdown = λ w. record w { ready = false };
  config = λ c w. config_if (w.ready && not (takes_any_time c)) c w;
}

pointer_after-false :
    (c : ConfigCall) (j : LogHook) (old : Option ℕ) → pointer_after (handler_of c) false j old ≡ old
pointer_after-false (handler k p) j old = refl
pointer_after-false _ j old = refl

config_if-configures :
    (b : Bool) (c : ConfigCall) (j : LogHook) (w : Options)
    → (config_if b c w).2.pointers j
      ≡ pointer_after (handler_of c) (is_ok (config_if b c w).0) j (w.pointers j)
config_if-configures true c j w = sym (pointer_after-false c j (w.pointers j))
config_if-configures false c j w = refl

abbrev library-ConfigLaws : ConfigLaws library
library-ConfigLaws = record {
  registered = λ j w. w.pointers j;
  configures = λ c j w. config_if-configures (w.ready && not (takes_any_time c)) c j w;
}

config_if-ready : (b : Bool) (c : ConfigCall) (w : Options) → (config_if b c w).2.ready ≡ w.ready
config_if-ready true c w = refl
config_if-ready false c w = refl

library-StartupLaws : StartupLaws library
library-StartupLaws = record {
  is_initialized = λ w. w.ready;
  initializes = λ w. refl;
  refuses = λ c w e r. rw (r, e) refl;
  stays = λ c w. config_if-ready (w.ready && not (takes_any_time c)) c w;
}

abbrev at_start : State Options
at_start = record {
  callbacks = λ k. none;
  heap = record { next = 0; cell = λ q. unused; broken = false };
  world = record { ready = false; pointers = λ k. none };
}

at_start-IsSafe : IsSafe library library-ConfigLaws at_start
at_start-IsSafe = record {
  pointed = λ k p e. e;
  owns = record {
    living = λ k p e. absurd (cc);
    once = λ k j p e f. absurd (cc);
    fresh = λ p f. refl;
    owner = λ p a. absurd (cc);
    whole = refl;
  };
}

configure_all-IsSafe_example : IsSafe library library-ConfigLaws (
    configure_all library
      (handles log_handler true
        ∷ handles log_handler true
        ∷ unhandles log_handler
        ∷ multithreads
        ∷ [])
      at_start)
configure_all-IsSafe_example =
    configure_all-IsSafe library library-ConfigLaws
      (handles log_handler true
        ∷ handles log_handler true
        ∷ unhandles log_handler
        ∷ multithreads
        ∷ [])
      at_start at_start-IsSafe

configure-setup_example :
    (configure library multithreads (
      configure_all library
        (mmap_sizes (pos 1) (pos 2) ∷ [])
        (record at_start { world = setup library at_start.world }))).0
    ≡ thrown (error sqlite_misuse "error")
configure-setup_example =
    configure-setup library library-StartupLaws (mmap_sizes (pos 1) (pos 2) ∷ []) multithreads
      at_start refl

-- The limits, none of which is over 100.
abbrev within : ℕ → ℕ
within n = if leb n 100 then n else 100

abbrev limits : LimitApi (LimitId → ℕ)
limits = record {
  limit = λ h i v w.
      (pos (within (w i)), λ j. ite (LimitId-discrete i j) (bounded v 100 (within (w j))) (w j));
}

within_hard : (n : ℕ) → within n ≤ 100
within_hard n = ground arith

within_bounded : (v : ℤ) (n : ℕ) → within (bounded v 100 (within n)) ≡ bounded v 100 (within n)
unfolding bounded
within_bounded (pos v) n = ground arith
within_bounded (negsuc v) n = ground arith

limits-sets :
    (i j : LimitId) (v : ℤ) (n : ℕ) (d : Dec (i ≡ j))
    → within (ite d (bounded v 100 (within n)) n) ≡ ite d (bounded v 100 (within n)) (within n)
limits-sets i j v n (yes e) = within_bounded v n
limits-sets i j v n (no e) = refl

abbrev limits-LimitLaws : LimitLaws limits
limits-LimitLaws = record {
  current = λ h i w. within (w i);
  hard = λ i. 100;
  within = λ h i w. within_hard (w i);
  answers = λ h i v w. refl;
  sets = λ h i j v w. limits-sets i j v (w j) (LimitId-discrete i j);
}

module _ {Key : Type 0} (id : Discrete Key) where
  abbrev read_or_reset : Key → Bool → (Key → Counter) → Key → Counter
  read_or_reset i false w j = w j
  read_or_reset i true w j = record {
    current = (w j).current;
    highwater = ite (id i j) (w j).current (w j).highwater;
  }

  abbrev counters : StatusApi Key (Key → Counter)
  counters = record {
    errstr = λ c. "error";
    status = λ i reset w. (sqlite_ok, w i, read_or_reset i reset w);
  }

  current-keeps :
      (i j : Key) (reset : Bool) (w : Key → Counter)
      → (read_or_reset i reset w j).current ≡ (w j).current
  current-keeps i j false w = refl
  current-keeps i j true w = refl

  abbrev counters-CounterLaws : CounterLaws counters id
  counters-CounterLaws = record {
    current = λ i w. (w i).current;
    highwater = λ i w. (w i).highwater;
    succeeds = λ i reset w. refl;
    answers = λ i reset w. refl;
    keeps = current-keeps;
    reads = λ i j w. refl;
    resets = λ i j w. refl;
  }

abbrev full : Counter
full = record { current = pos 3; highwater = pos 8 }
