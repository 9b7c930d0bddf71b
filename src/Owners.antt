-- ===== src/Owners.antt =====
-- connection.cpp with the impl files of functions, aggregates and collations: a connection whose handlers its
-- own table owns, and whose SQL functions sqlite3 owns, on one heap; from its opening to its end.
pub mod Laws
pub mod Ended
use sqxx.Base.{ℕ, Option, none, some, List, [], ◌∷◌}
use sqxx.Heap.{Heap}
use sqxx.Slots.{Table}
use sqxx.Statement.{Handle}
use sqxx.Connection.Handlers.{Hook, HookApi, State}
use sqxx.Connection.Handlers.Requests.{Request, serve}
use sqxx.Connection.Handlers.Teardown.{destroy_callbacks, close_handle}
use sqxx.Registration.{RegisterApi}
use sqxx.Registration.Registry.{Registering, call_of}

-- The calls of a program: about a handler, or about a function, an aggregate or a collation.
pub data Step (C : Type 0) : Type 0 where
  handles : Request → Step C
  registers : Registering C → Step C

-- `callbacks` is the unique_ptr to the table of handlers.
pub record Connected (W : Type 0) : Type 0 where
  pub callbacks : Option (Table Hook)
  pub heap : Heap
  pub world : W

module _ {C W : Type 0} (hooks : HookApi W) (api : RegisterApi W) (handle : Handle) where
  unfoldable pub take_step : Step C → Connected W → Connected W
  take_step (handles r) s =
      let s' =
        serve hooks r
          (record { handle = handle; callbacks = s.callbacks; heap = s.heap; world = s.world }) in
      record { callbacks = s'.callbacks; heap = s'.heap; world = s'.world }
  take_step (registers op) s =
      let r = call_of api handle op s.heap s.world in record s { heap = r.heap; world = r.world }

  unfoldable pub take_steps : List (Step C) → Connected W → Connected W
  unfolding take_step
  take_steps [] s = s
  take_steps (x ∷ xs) s = take_steps xs (take_step x s)

-- ~connection(): sqlite3_close_v2, which destroys what sqlite3 owns, and then the members.
pub finish : {W : Type 0} → (Handle → Heap × W → Heap × W) → Handle → Connected W → Heap × W
unfolding close_handle destroy_callbacks
finish close handle s =
    let (heap, w) = close_handle close handle (s.heap, s.world) in
    (destroy_callbacks s.callbacks heap, w)
