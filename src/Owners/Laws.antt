-- ===== src/Owners/Laws.antt =====
-- What sqlite3 documents of a connection that has hooks and functions.
use mathlib.Core.List.{Mem}
use sqxx.Base.{ℕ, ◌≡◌, none, some, List}
use sqxx.Heap.{Heap}
use sqxx.Slots.Moves.{destroy_slots}
use sqxx.Statement.{Handle}
use sqxx.Connection.Handlers.{Hook, HookApi}
use sqxx.Connection.Handlers.Safety.{HookLaws}
use sqxx.Connection.Handlers.Moving.{Unhooked}
use sqxx.Registration.{RegisterApi}
use sqxx.Registration.Registry.Laws.{RegistryLaws}
use sqxx.Registration.Registry.Moving.{Unregistered}

-- Hooks and functions are apart; and sqlite3_close_v2 destroys the data of the functions and collations, each
-- once, and calls no hook after that.
pub record ConnectedLaws {W K : Type 0} (hooks : HookApi W) (api : RegisterApi W) (d : Discrete K)
    (p : ℕ) (close : Handle → Heap × W → Heap × W) : Type 0 where
  pub hooked : HookLaws hooks
  pub registry : RegistryLaws api d (some p)
  pub functions_stay : Unhooked hooks (λ w. registry.owned w)
  pub hooks_stay : (k : Hook) → Unregistered api (λ w. hooked.registered k (some p) w)
  -- the keys in the order in which they are destroyed
  pub keys : W → List K
  pub listed : (w : W) (k : K) (q : ℕ) → registry.owned w k ≡ some q → Mem k (keys w)
  pub destroys :
      (h : Heap) (w : W) → (close (some p) (h, w)).0 ≡ destroy_slots d (keys w) (registry.owned w) h
  pub unhooks :
      (h : Heap) (w : W) (k : Hook) → hooked.registered k (some p) (close (some p) (h, w)).1 ≡ none
