-- ===== src/Connection/Handlers.antt =====
-- connection.cpp, `set_…_handler()`: the table of handlers, which owns copies of them, and the hooks of
-- sqlite3, which hold raw pointers to those copies.
pub mod Requests
pub mod Safety
pub mod Teardown
pub mod Active
pub mod Moving
use sqxx.Base.{ℕ, suc, String, Bool, true, false, Option, none, some, if◌then◌else◌, ◌==◌}
use sqxx.Base.Int.{ℤ, pos}
use sqxx.Effect.{Code, Outcome, returned, thrown, static_error, is_ok}
use sqxx.Slots.{Table, set_slot}
use sqxx.Heap.{Heap, new, delete}
use sqxx.Statement.{Handle}

-- The members of class connection_callback_table.
pub data Hook : Type 0 where
  commit rollback update trace profile authorize busy progress wal collation : Hook

pub Hook-discrete : Discrete Hook
Hook-discrete = hlevel

-- The functions of sqlite3 that set a hook, with its data pointer and, for the progress handler, `vinst`; the
-- other hooks have no number, and get 0 here. The other two set sqlite3's own handler in the place of the program's.
pub record HookApi (W : Type 0) : Type 0 where
  pub errstr : Code → String
  pub hook : Hook → Handle → ℤ → Option ℕ → W → W
  pub busy_timeout : Handle → ℤ → W → Code × W
  pub wal_autocheckpoint : Handle → ℤ → W → Code × W

-- `callbacks` is the unique_ptr to the table, made on demand.
pub record State (W : Type 0) : Type 0 where
  pub handle : Handle
  pub callbacks : Option (Table Hook)
  pub heap : Heap
  pub world : W

abbrev pub empty_table : Table Hook
empty_table k = none

abbrev pub slot : Option (Table Hook) → Table Hook
slot none k = none
slot (some t) k = t k

-- void connection::setup_callbacks()
unfoldable pub setup_callbacks : Option (Table Hook) → Option (Table Hook)
setup_callbacks none = some empty_table
setup_callbacks (some t) = some t

-- `callbacks->handler = v;`, which deletes what the member held
unfoldable assign : {W : Type 0} → Hook → Option ℕ → State W → State W
unfolding delete
assign k v s = elim s.callbacks [
  | none ↦ s
  | some t ↦ record s {
    callbacks = some (set_slot Hook-discrete k v t);
    heap = delete (t k) s.heap;
  }
]

module _ {W : Type 0} (api : HookApi W) where
  -- void connection::set_…_handler()
  unfoldable pub unset_handler : Hook → State W → State W
  unfolding assign
  unset_handler k s = assign k none (record s { world = api.hook k s.handle (pos 0) none s.world })

  -- void connection::set_…_handler(fun), for a `fun` that is not empty
  unfoldable install : Hook → ℤ → State W → State W
  unfolding new setup_callbacks assign
  install k vinst s =
      let (cb, heap) = new s.heap in
      assign k (some cb) (record s {
        world = api.hook k s.handle vinst (some cb) s.world;
        heap = heap;
        callbacks = setup_callbacks s.callbacks;
      })

  unfoldable pub set_handler : Hook → ℤ → Bool → State W → State W
  unfolding install unset_handler
  set_handler k vinst fun s = if fun then install k vinst s else unset_handler k s

  unfoldable pub set_commit_handler : Bool → State W → State W
  unfolding set_handler
  set_commit_handler fun = set_handler commit (pos 0) fun

  pub set_rollback_handler : Bool → State W → State W
  unfolding set_handler
  set_rollback_handler fun = set_handler rollback (pos 0) fun

  pub set_update_handler : Bool → State W → State W
  unfolding set_handler
  set_update_handler fun = set_handler update (pos 0) fun

  pub set_trace_handler : Bool → State W → State W
  unfolding set_handler
  set_trace_handler fun = set_handler trace (pos 0) fun

  pub set_profile_handler : Bool → State W → State W
  unfolding set_handler
  set_profile_handler fun = set_handler profile (pos 0) fun

  pub set_authorize_handler : Bool → State W → State W
  unfolding set_handler
  set_authorize_handler fun = set_handler authorize (pos 0) fun

  pub set_busy_handler : Bool → State W → State W
  unfolding set_handler
  set_busy_handler fun = set_handler busy (pos 0) fun

  pub set_progress_handler : ℤ → Bool → State W → State W
  unfolding set_handler
  set_progress_handler vinst fun = set_handler progress vinst fun

  pub set_wal_handler : Bool → State W → State W
  unfolding set_handler
  set_wal_handler fun = set_handler wal (pos 0) fun

  pub set_collation_handler : Bool → State W → State W
  unfolding set_handler
  set_collation_handler fun = set_handler collation (pos 0) fun

  forget_if : Hook → Code → State W → Outcome (Unit {0}) × State W
  unfolding assign
  forget_if k rv s =
      if is_ok rv then (returned tt, assign k none s) else (thrown (static_error api.errstr rv), s)

  pub busy_timeout : ℤ → State W → Outcome (Unit {0}) × State W
  unfolding forget_if
  busy_timeout ms s =
      let (rv, w) = api.busy_timeout s.handle ms s.world in
      forget_if busy rv (record s { world = w })

  pub wal_autocheckpoint : ℤ → State W → Outcome (Unit {0}) × State W
  unfolding forget_if
  wal_autocheckpoint frames s =
      let (rv, w) = api.wal_autocheckpoint s.handle frames s.world in
      forget_if wal rv (record s { world = w })
