-- ===== src/Connection/Handlers/Teardown.antt =====
-- connection.cpp, `~connection()`, as far as the handlers go: the database is closed first, and then the
-- member `callbacks` is destroyed, which deletes what the members of the table own.
use sqxx.Base.{ℕ, ◌≡◌, ◌≢◌, refl, false, none, some, Option, List, [], ◌∷◌}
use sqxx.Statement.{Handle}
use sqxx.Heap.{alive, Heap}
use sqxx.Slots.{Table, Owns}
use sqxx.Slots.Moves.{emptied, destroy_slots, destroy_slots-Owns}
use sqxx.Connection.Handlers.{
  Hook, commit, rollback, update, trace, profile, authorize, busy, progress, wal, collation,
  Hook-discrete, HookApi, State, slot,
}
use sqxx.Connection.Handlers.Safety.{HookLaws, IsSafe}

-- The members in the order in which they are destroyed, the last declared first.
abbrev pub members : List Hook
members =
    collation ∷ wal ∷ progress ∷ busy ∷ authorize ∷ profile ∷ trace ∷ update ∷ rollback ∷ commit
    ∷ []

unfoldable pub destroy_members : Table Hook → Heap → Heap
unfolding destroy_slots
destroy_members t h = destroy_slots Hook-discrete members t h

-- ~unique_ptr<connection_callback_table>()
unfoldable pub destroy_callbacks : Option (Table Hook) → Heap → Heap
unfolding destroy_members
destroy_callbacks none h = h
destroy_callbacks (some t) h = destroy_members t h

unfoldable pub close_handle : {W : Type 0} → (Handle → W → W) → Handle → W → W
close_handle close none w = w
close_handle close (some p) w = close (some p) w

-- ~connection(), where `close` is sqlite3_close_v2
pub tear_down : {W : Type 0} → (Handle → W → W) → State W → State W
unfolding destroy_callbacks close_handle
tear_down close s = record {
  handle = none;
  callbacks = none;
  heap = destroy_callbacks s.callbacks s.heap;
  world = close_handle close s.handle s.world;
}

pub emptied-members : (t : Table Hook) (j : Hook) → emptied Hook-discrete members t j ≡ none
unfolding emptied Hook-discrete
emptied-members t commit = refl
emptied-members t rollback = refl
emptied-members t update = refl
emptied-members t trace = refl
emptied-members t profile = refl
emptied-members t authorize = refl
emptied-members t busy = refl
emptied-members t progress = refl
emptied-members t wal = refl
emptied-members t collation = refl

nothing_alive :
    (t : Table Hook) (h : Heap)
    → ((k : Hook) → t k ≡ none)
    → Owns t h
    → ((p : ℕ) → h.cell p ≢ alive) × (h.broken ≡ false)
nothing_alive t h free v = (λ p a. let (k, held) = v.owner p a in cc (free k), v.whole)

destroy_callbacks_lem :
    (c : Option (Table Hook)) (h : Heap)
    → Owns (slot c) h
    → ((p : ℕ) → (destroy_callbacks c h).cell p ≢ alive) × ((destroy_callbacks c h).broken ≡ false)
unfolding destroy_callbacks destroy_members
destroy_callbacks_lem none h v = nothing_alive _ h (λ k. refl) v
destroy_callbacks_lem (some t) h v =
    nothing_alive (emptied Hook-discrete members t) (destroy_members t h) (emptied-members t)
      (destroy_slots-Owns Hook-discrete members t h v)

module _ {W : Type 0} (api : HookApi W) (laws : HookLaws api) where
  -- For a connection whose hooks are gone once sqlite3 has closed it, and from a safe state with an open
  -- handle: after the destructor sqlite3 holds no data pointer of the connection, no object of a
  -- handler is left alive, and none was deleted twice.
  pub tear_down-IsSafe :
      (close : Handle → W → W) (p : ℕ) (s : State W)
      → ((k : Hook) → laws.registered k (some p) (close (some p) s.world) ≡ none)
      → s.handle ≡ some p
      → IsSafe api laws s
      → let s' = tear_down close s in
        ((k : Hook) → laws.registered k (some p) s'.world ≡ none)
        × ((q : ℕ) → s'.heap.cell q ≢ alive)
        × (s'.heap.broken ≡ false)
  unfolding tear_down close_handle
  tear_down-IsSafe close p s gone e v =
      let (dead, whole) = destroy_callbacks_lem s.callbacks s.heap v.owns in
      (λ k. rw e (gone k), dead, whole)
