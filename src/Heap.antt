-- ===== src/Heap.antt =====
-- The C++ heap, as far as objects that a unique_ptr or sqlite3 owns are concerned.
use sqxx.Base.{ℕ, suc, Bool, true, false, Option, none, some, if◌then◌else◌, ◌==◌}

-- An object of the C++ heap: not yet allocated, alive, or deleted.
pub data Cell : Type 0 where
  unused alive deleted : Cell

-- `broken` is set when something is deleted that is not alive.
pub record Heap : Type 0 where
  pub next : ℕ
  pub cell : ℕ → Cell
  pub broken : Bool

-- new T(…)
unfoldable pub new : Heap → ℕ × Heap
new h =
    (h.next, record h { next = suc h.next; cell = λ q. if h.next == q then alive else h.cell q })

abbrev pub is_alive : Cell → Bool
is_alive alive = true
is_alive _ = false

-- delete of what a unique_ptr holds
unfoldable pub delete : Option ℕ → Heap → Heap
delete none h = h
delete (some p) h = record h {
  cell = λ q. if p == q then deleted else h.cell q;
  broken = if is_alive (h.cell p) then h.broken else true;
}
