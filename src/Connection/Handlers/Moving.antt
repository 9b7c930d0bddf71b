-- ===== src/Connection/Handlers/Moving.antt =====
-- What the calls about handlers do to the table with the heap, whatever else is on it.
use sqxx.Base.{ℕ, ◌≡◌, refl, ap, ◌∙◌, Bool, true, false, Option, none, some, Bool-cases, inl, inr}
use sqxx.Base.Int.{ℤ, pos}
use sqxx.Effect.{Code, is_ok}
use sqxx.Statement.{Handle}
use sqxx.Heap.{Heap}
use sqxx.Slots.{Table}
use sqxx.Slots.Moves.{Moves, keeps, drops, replaces}
use sqxx.Connection.Handlers.{
  Hook, busy, wal, Hook-discrete, HookApi, State, slot, forget_if, assign, install, unset_handler,
  set_handler, busy_timeout, wal_autocheckpoint,
}
use sqxx.Connection.Handlers.Requests.{
  Request, sets, busy_timeouts, wal_autocheckpoints, number, setter_lem, serve,
}

module _ {W : Type 0} (api : HookApi W) where
  -- From this table and heap to those of the state.
  abbrev To : Option (Table Hook) → Heap → State W → Type 0
  To c heap s = Moves Hook-discrete (slot c) heap (slot s.callbacks) s.heap

  assign_lem :
      (k : Hook) (h : Handle) (c : Option (Table Hook)) (heap : Heap) (w : W)
      → To c heap (assign k none (record { handle = h; callbacks = c; heap = heap; world = w }))
  unfolding assign
  assign_lem k h none heap w = keeps refl refl
  assign_lem k h (some t) heap w = drops k refl refl

  install_lem :
      (k : Hook) (vinst : ℤ) (h : Handle) (c : Option (Table Hook)) (heap : Heap) (w : W)
      → To c heap
          (install api k vinst (record { handle = h; callbacks = c; heap = heap; world = w }))
  unfolding install
  install_lem k vinst h none heap w = replaces k refl refl
  install_lem k vinst h (some t) heap w = replaces k refl refl

  set_handler_lem :
      (k : Hook) (vinst : ℤ) (fun : Bool) (s : State W)
      → To s.callbacks s.heap (set_handler api k vinst fun s)
  unfolding set_handler unset_handler
  set_handler_lem k vinst true s = install_lem k vinst s.handle s.callbacks s.heap s.world
  set_handler_lem k vinst false s = assign_lem k s.handle s.callbacks s.heap _

  forget_lem :
      (k : Hook) (rv : Code) (s : State W) (w : W)
      → To s.callbacks s.heap (forget_if api k rv (record s { world = w })).1
  unfolding forget_if
  forget_lem k rv s w = elim (Bool-cases (is_ok rv)) [
    | inl e ↦ rw e (assign_lem k s.handle s.callbacks s.heap w)
    | inr e ↦ rw e (keeps refl refl)
  ]

  pub serve-Moves : (r : Request) (s : State W) → To s.callbacks s.heap (serve api r s)
  unfolding serve busy_timeout wal_autocheckpoint
  serve-Moves (sets k vinst fun) s =
      rw (setter_lem api k vinst fun s) (set_handler_lem k (number k vinst) fun s)
  serve-Moves (busy_timeouts ms) s = forget_lem busy _ s _
  serve-Moves (wal_autocheckpoints frames) s = forget_lem wal _ s _

module _ {W : Type 0} (api : HookApi W) where
  assign-handle :
      (k : Hook) (v : Option ℕ) (h : Handle) (c : Option (Table Hook)) (heap : Heap) (w : W)
      → (assign k v (record { handle = h; callbacks = c; heap = heap; world = w })).handle ≡ h
  unfolding assign
  assign-handle k v h none heap w = refl
  assign-handle k v h (some t) heap w = refl

  forget-handle : (k : Hook) (rv : Code) (s : State W) → (forget_if api k rv s).1.handle ≡ s.handle
  unfolding forget_if
  forget-handle k rv s = elim (Bool-cases (is_ok rv)) [
    | inl e ↦ rw e (assign-handle k none s.handle s.callbacks s.heap s.world)
    | inr e ↦ rw e refl
  ]

  set_handler-handle :
      (k : Hook) (vinst : ℤ) (fun : Bool) (s : State W)
      → (set_handler api k vinst fun s).handle ≡ s.handle
  unfolding set_handler install unset_handler
  set_handler-handle k vinst true s = assign-handle k (some s.heap.next) s.handle _ _ _
  set_handler-handle k vinst false s = assign-handle k none s.handle s.callbacks s.heap _

  pub serve-handle : (r : Request) (s : State W) → (serve api r s).handle ≡ s.handle
  unfolding serve busy_timeout wal_autocheckpoint
  serve-handle (sets k vinst fun) s =
      rw (setter_lem api k vinst fun s) (set_handler-handle k (number k vinst) fun s)
  serve-handle (busy_timeouts ms) s = forget-handle busy _ _
  serve-handle (wal_autocheckpoints frames) s = forget-handle wal _ _

-- What the hooks of sqlite3 do not change: `f` is a thing that sqlite3 could be asked.
pub record Unhooked {W A : Type 0} (api : HookApi W) (f : W → A) : Type 0 where
  pub hooks :
      (k : Hook) (h : Handle) (vinst : ℤ) (p : Option ℕ) (w : W) → f (api.hook k h vinst p w) ≡ f w
  pub busies : (h : Handle) (ms : ℤ) (w : W) → f (api.busy_timeout h ms w).1 ≡ f w
  pub wals : (h : Handle) (frames : ℤ) (w : W) → f (api.wal_autocheckpoint h frames w).1 ≡ f w

module _ {W A : Type 0} (api : HookApi W) (f : W → A) (ignored : Unhooked api f) where
  assign-world :
      (k : Hook) (v : Option ℕ) (h : Handle) (c : Option (Table Hook)) (heap : Heap) (w : W)
      → (assign k v (record { handle = h; callbacks = c; heap = heap; world = w })).world ≡ w
  unfolding assign
  assign-world k v h none heap w = refl
  assign-world k v h (some t) heap w = refl

  set_handler-same :
      (k : Hook) (vinst : ℤ) (fun : Bool) (s : State W)
      → f (set_handler api k vinst fun s).world ≡ f s.world
  unfolding set_handler install unset_handler
  set_handler-same k vinst true s =
      ap f (assign-world k (some s.heap.next) s.handle _ _ _)
      ∙ ignored.hooks k s.handle vinst (some s.heap.next) s.world
  set_handler-same k vinst false s =
      ap f (assign-world k none s.handle s.callbacks s.heap _)
      ∙ ignored.hooks k s.handle (pos 0) none s.world

  forget-world :
      (k : Hook) (rv : Code) (s : State W) (w : W)
      → (forget_if api k rv (record s { world = w })).1.world ≡ w
  unfolding forget_if
  forget-world k rv s w = elim (Bool-cases (is_ok rv)) [
    | inl e ↦ rw e (assign-world k none s.handle s.callbacks s.heap w)
    | inr e ↦ rw e refl
  ]

  pub serve-same : (r : Request) (s : State W) → f (serve api r s).world ≡ f s.world
  unfolding serve busy_timeout wal_autocheckpoint
  serve-same (sets k vinst fun) s =
      rw (setter_lem api k vinst fun s) (set_handler-same k (number k vinst) fun s)
  serve-same (busy_timeouts ms) s =
      ap f (forget-world busy _ s _) ∙ ignored.busies s.handle ms s.world
  serve-same (wal_autocheckpoints frames) s =
      ap f (forget-world wal _ s _) ∙ ignored.wals s.handle frames s.world
