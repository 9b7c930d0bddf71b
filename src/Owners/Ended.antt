-- ===== src/Owners/Ended.antt =====
-- From the opening of a connection to its end: every object that the library makes for it is deleted once.
use mathlib.Core.Path.{subst}
use sqxx.Base.{ℕ, ◌≡◌, ◌≢◌, refl, sym, false, Option, none, some, List, [], ◌∷◌, ◌⊎◌, inl, inr}
use sqxx.Heap.{alive, Heap}
use sqxx.Slots.{Table, Owns}
use sqxx.Slots.Moves.{
  Moves-Owns, Moves-inl, Moves-inr, union, either, emptied, emptied-all, destroy_slots,
  destroy_slots-inl, destroy_slots-inr,
}
use sqxx.Statement.{Handle}
use sqxx.Connection.Handlers.{Hook, Hook-discrete, HookApi, State, slot}
use sqxx.Connection.Handlers.Requests.{Request, serve}
use sqxx.Connection.Handlers.Active.{serve_lem, Held}
use sqxx.Connection.Handlers.Moving.{serve-Moves, serve-same, serve-handle}
use sqxx.Connection.Handlers.Teardown.{
  members, emptied-members, destroy_members, destroy_callbacks, close_handle,
}
use sqxx.Registration.{RegisterApi}
use sqxx.Registration.Registry.{Registering, call_of}
use sqxx.Registration.Registry.Moving.{call_of-Moves, call_of-same}
use sqxx.Owners.{Step, handles, registers, Connected, take_step, take_steps, finish}
use sqxx.Owners.Laws.{ConnectedLaws}

module _ {W K : Type 0} (hooks : HookApi W) (api : RegisterApi W) (d : Discrete K) (p : ℕ)
    (close : Handle → Heap × W → Heap × W) (laws : ConnectedLaws hooks api d p close) where
  -- sqlite3's hooks hold the pointers of the table of handlers, but for a disabled progress handler; and that table and sqlite3 own exactly what
  -- is alive, each object once.
  pub record Owned (s : Connected W) : Type 0 where
    pub exact : (k : Hook) → Held k (laws.hooked.registered k (some p) s.world) (slot s.callbacks k)
    pub owns : Owns (union (slot s.callbacks) (laws.registry.owned s.world)) s.heap

  handles-Owned :
      (C : Type 0) (r : Request) (s : Connected W)
      → Owned s
      → Owned (take_step {C = C} hooks api (some p) (handles r) s)
  unfolding take_step
  handles-Owned C r s v =
      let o : State W = record {
        handle = some p;
        callbacks = s.callbacks;
        heap = s.heap;
        world = s.world;
      } in
      let o' = serve hooks r o in
      let owned = serve-same hooks (λ w. laws.registry.owned w) laws.functions_stay r o in
      record {
        exact = λ k.
            subst (λ h. Held k (laws.hooked.registered k h o'.world) (slot o'.callbacks k))
              (serve-handle hooks r o) ((serve_lem hooks laws.hooked r o v.exact).0 k);
        owns = rw owned (
            Moves-Owns (either Hook-discrete d) _ s.heap _ o'.heap
              (Moves-inl Hook-discrete d (slot s.callbacks) (slot o'.callbacks)
                (laws.registry.owned s.world) s.heap o'.heap (serve-Moves hooks r o))
              v.owns);
      }

  registers-Owned :
      {C : Type 0} (op : Registering C) (s : Connected W)
      → Owned s
      → Owned (take_step hooks api (some p) (registers op) s)
  unfolding take_step
  registers-Owned op s v =
      let r = call_of api (some p) op s.heap s.world in
      record {
        exact = λ k.
            subst (λ x. Held k x (slot s.callbacks k))
              (sym (
                call_of-same api (λ w. laws.hooked.registered k (some p) w) (laws.hooks_stay k)
                  (some p) op s.heap s.world))
              (v.exact k);
        owns =
            Moves-Owns (either Hook-discrete d) _ s.heap _ r.heap
              (Moves-inr Hook-discrete d (slot s.callbacks) (laws.registry.owned s.world)
                (laws.registry.owned r.world) s.heap r.heap
                (call_of-Moves api d (some p) laws.registry op s.heap s.world))
              v.owns;
      }

  -- For a sqlite3 that keeps hooks and functions as documented: whatever handlers, functions, aggregates and
  -- collations a program sets, creates, replaces and removes on a connection, in whatever order and
  -- with whatever errors, sqlite3's hooks hold the pointers of the table of handlers, a progress handler
  -- excepted that sqlite3 disables for its number, and that table and sqlite3 own between them exactly the objects that are alive, each object once, if it was so
  -- before.
  pub take_steps-Owned :
      {C : Type 0} (xs : List (Step C)) (s : Connected W)
      → Owned s
      → Owned (take_steps hooks api (some p) xs s)
  unfolding take_steps
  take_steps-Owned {C} [] s v = v
  take_steps-Owned {C} (handles r ∷ xs) s v = take_steps-Owned xs _ (handles-Owned C r s v)
  take_steps-Owned {C} (registers op ∷ xs) s v = take_steps-Owned xs _ (registers-Owned op s v)

  -- Nothing is alive that no slot holds.
  nothing_alive :
      (t : Table Hook) (r : Table K) (h : Heap)
      → ((k : Hook) → t k ≡ none)
      → ((k : K) → r k ≡ none)
      → Owns (union t r) h
      → ((q : ℕ) → h.cell q ≢ alive) × (h.broken ≡ false)
  nothing_alive t r h f g v = (λ q a. go q (v.owner q a).0 (v.owner q a).1, v.whole)
    where
      go : (q : ℕ) (k : Hook ⊎ K) → union t r k ≢ some q
      go q (inl k) e = cc (f k)
      go q (inr k) e = cc (g k)

  destroyed :
      (c : Option (Table Hook)) (r : Table K) (h : Heap)
      → ((k : K) → r k ≡ none)
      → Owns (union (slot c) r) h
      → ((q : ℕ) → (destroy_callbacks c h).cell q ≢ alive)
        × ((destroy_callbacks c h).broken ≡ false)
  unfolding destroy_callbacks destroy_members
  destroyed none r h g v = nothing_alive _ r h (λ k. refl) g v
  destroyed (some t) r h g v =
      nothing_alive (emptied Hook-discrete members t) r (destroy_slots Hook-discrete members t h)
        (emptied-members t) g (destroy_slots-inl Hook-discrete d members t r h v)

  -- For such a sqlite3, and a connection that has no statements left: after whatever calls about handlers,
  -- functions, aggregates and collations, the destructor of the connection leaves none of the
  -- objects alive that the library made for them, none was deleted twice or while it was not alive,
  -- and sqlite3 holds no data pointer of a handler.
  pub finish-take_steps :
      {C : Type 0} (xs : List (Step C)) (s : Connected W)
      → Owned s
      → let (heap, w) = finish close (some p) (take_steps hooks api (some p) xs s) in
        ((q : ℕ) → heap.cell q ≢ alive)
        × (heap.broken ≡ false)
        × ((k : Hook) → laws.hooked.registered k (some p) w ≡ none)
  unfolding finish close_handle
  finish-take_steps xs s v =
      let s' = take_steps hooks api (some p) xs s in
      let v' = take_steps-Owned xs s v in
      let table = laws.registry.owned s'.world in
      let keys = laws.keys s'.world in
      let (dead, whole) =
        destroyed s'.callbacks (emptied d keys table) (destroy_slots d keys table s'.heap)
          (λ k. emptied-all d keys table k (laws.listed s'.world k))
          (destroy_slots-inr Hook-discrete d keys (slot s'.callbacks) table s'.heap v'.owns) in
      rw (laws.destroys s'.heap s'.world) (dead, whole, laws.unhooks s'.heap s'.world)
