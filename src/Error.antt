-- ===== src/Error.antt =====
-- error.hpp and error.cpp: `managed_error`, the exception that owns a text that sqlite3 allocated. Its copy
-- constructor is the default one.
use sqxx.Base.{ℕ, ◌≡◌, refl, String, true, Option, some, ==_iff, arith}
use sqxx.Effect.{Code}
use sqxx.Heap.{Heap, alive, delete}

pub record ManagedError : Type 0 where
  pub code : Code
  pub what : String
  pub sqlitestr : Option ℕ

-- managed_error::managed_error; std::runtime_error copies the text.
unfoldable pub init : Code → String → ℕ → ManagedError
init code text p = record { code = code; what = text; sqlitestr = some p }

-- managed_error(const managed_error &), which is not declared
unfoldable pub copy : ManagedError → ManagedError
copy e = e

-- ~managed_error(), where sqlite3_free is `delete`
unfoldable pub destroy : ManagedError → Heap → Heap
unfolding delete
destroy e h = delete e.sqlitestr h

-- A managed_error that was made from a text that is alive is destroyed once: the text is freed, and nothing
-- else on the heap changes. Where it was copied before, as for an exception that is caught by value, and both
-- are destroyed, the text is freed twice.
pub destroy-copy :
    (code : Code) (text : String) (p : ℕ) (h : Heap)
    → h.cell p ≡ alive
    → let e = init code text p in
      ((destroy e h).broken ≡ h.broken) × ((destroy (copy e) (destroy e h)).broken ≡ true)
unfolding init copy destroy delete
destroy-copy code text p h a = (ground (arith, a), ground (arith, (==_iff p p).1 refl))
