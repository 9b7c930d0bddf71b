-- ===== src/Connection/Handlers/Safety.antt =====
-- The pointers that sqlite3 holds are alive, and the heap holds no more than the table owns.
use mathlib.Core.Path.{subst}
use mathlib.Core.Logic.{ite}
use sqxx.Base.{
  ℕ, zero, suc, ◌≡◌, ◌≢◌, refl, sym, ◌∙◌, Bool, true, false, Option, none, some, if◌then◌else◌,
  Bool-cases, inl, inr, List, [], ◌∷◌,
}
use sqxx.Base.Int.{ℤ, pos, negsuc}
use sqxx.Effect.{Code, is_ok}
use sqxx.Statement.{Handle}
use sqxx.Heap.{Heap}
use sqxx.Connection.Handlers.{
  Hook, progress, busy, wal, Hook-discrete, HookApi, State, slot, empty_table, forget_if, assign,
  install, unset_handler, set_handler, busy_timeout, wal_autocheckpoint,
}
use sqxx.Connection.Handlers.Requests.{
  Request, sets, busy_timeouts, wal_autocheckpoints, number, setter_lem, serve, serve_all,
}
use sqxx.Slots.{
  Table, set_slot, set_slot-eq, Owns, drop-Owns, replace-Owns, set_slot-cases, set_slot-ne,
}

-- sqlite3 documents that a progress handler with a number below 1 is disabled.
abbrev pub enabled : Hook → ℤ → Option ℕ → Option ℕ
enabled progress (pos (suc n)) p = p
enabled progress _ p = none
enabled _ vinst p = p

-- What sqlite3 documents of its hooks: the data pointer that each hook of a connection has.
pub record HookLaws {W : Type 0} (api : HookApi W) : Type 0 where
  pub registered : Hook → Handle → W → Option ℕ
  pub hooks :
      (k j : Hook) (h : Handle) (vinst : ℤ) (p : Option ℕ) (w : W)
      → registered j h (api.hook k h vinst p w)
        ≡ ite (Hook-discrete k j) (enabled k vinst p) (registered j h w)
  -- sqlite3's own busy handler and WAL hook replace the program's, unless the call fails
  pub busies :
      (j : Hook) (h : Handle) (ms : ℤ) (w : W)
      → registered j h (api.busy_timeout h ms w).1 ≡ (
          if is_ok (api.busy_timeout h ms w).0
          then ite (Hook-discrete busy j) none (registered j h w)
          else registered j h w)
  pub wals :
      (j : Hook) (h : Handle) (frames : ℤ) (w : W)
      → registered j h (api.wal_autocheckpoint h frames w).1 ≡ (
          if is_ok (api.wal_autocheckpoint h frames w).0
          then ite (Hook-discrete wal j) none (registered j h w)
          else registered j h w)

-- What is registered is what was given.
enabled_lem :
    (k : Hook) (vinst : ℤ) (o : Option ℕ) (p : ℕ) → enabled k vinst o ≡ some p → o ≡ some p
enabled_lem progress (pos zero) o p e = absurd (cc)
enabled_lem progress (pos (suc n)) o p e = e
enabled_lem progress (negsuc n) o p e = absurd (cc)
enabled_lem _ vinst o p e = e

module _ {W : Type 0} (api : HookApi W) (laws : HookLaws api) where
  -- The data pointers that sqlite3 would hand to the handlers are what the table owns, and the heap
  -- holds what the table owns and no more.
  pub record IsSafe (s : State W) : Type 0 where
    pub pointed :
        (k : Hook) (p : ℕ)
        → laws.registered k s.handle s.world ≡ some p
        → slot s.callbacks k ≡ some p
    pub owns : Owns (slot s.callbacks) s.heap

  emptied-IsSafe :
      (k : Hook) (h : Handle) (c : Option (Table Hook)) (heap : Heap) (w : W)
      → ((j : Hook) (p : ℕ) → laws.registered j h w ≡ some p → (k ≢ j) × (slot c j ≡ some p))
      → Owns (slot c) heap
      → IsSafe (assign k none (record { handle = h; callbacks = c; heap = heap; world = w }))
  unfolding assign
  emptied-IsSafe k h none heap w r v = record { pointed = λ j p e. (r j p e).1; owns = v }
  emptied-IsSafe k h (some t) heap w r v = record {
    pointed =
        λ j p e. let (other, held) = r j p e in set_slot-ne Hook-discrete k t j none other ∙ held;
    owns = drop-Owns Hook-discrete k t heap (t k) refl v;
  }

  installed_there-IsSafe :
      (k : Hook) (vinst : ℤ) (h : Handle) (t : Table Hook) (heap : Heap) (w : W)
      → IsSafe (record { handle = h; callbacks = some t; heap = heap; world = w })
      → IsSafe
          (install api k vinst (record { handle = h; callbacks = some t; heap = heap; world = w }))
  unfolding install
  installed_there-IsSafe k vinst h t heap w v = record {
    pointed = λ j p e.
        elim (set_slot-cases Hook-discrete k j (enabled k vinst (some heap.next))
          (λ x. laws.registered x h w) p (sym (laws.hooks k j h vinst (some heap.next) w) ∙ e)) [
            | inl (same, f) ↦
                subst (λ x. set_slot Hook-discrete k (some heap.next) t x ≡ some p) same
                  (set_slot-eq Hook-discrete k t _ ∙ enabled_lem k vinst (some heap.next) p f)
            | inr (other, f) ↦ set_slot-ne Hook-discrete k t j _ other ∙ v.pointed j p f
          ];
    owns = replace-Owns Hook-discrete k t heap (t k) refl v.owns;
  }

  install-IsSafe :
      (k : Hook) (vinst : ℤ) (h : Handle) (c : Option (Table Hook)) (heap : Heap) (w : W)
      → IsSafe (record { handle = h; callbacks = c; heap = heap; world = w })
      → IsSafe (install api k vinst (record { handle = h; callbacks = c; heap = heap; world = w }))
  unfolding install
  install-IsSafe k vinst h none heap w v =
      installed_there-IsSafe k vinst h empty_table heap w
        (record { pointed = v.pointed; owns = v.owns })
  install-IsSafe k vinst h (some t) heap w v = installed_there-IsSafe k vinst h t heap w v

  unset_handler-IsSafe : (k : Hook) (s : State W) → IsSafe s → IsSafe (unset_handler api k s)
  unfolding unset_handler
  unset_handler-IsSafe k s v =
      emptied-IsSafe k s.handle s.callbacks s.heap _
        (λ j p e.
          elim (set_slot-cases Hook-discrete k j (enabled k (pos 0) none)
            (λ x. laws.registered x s.handle s.world) p
            (sym (laws.hooks k j s.handle (pos 0) none s.world) ∙ e)) [
              | inl (_, f) ↦ absurd (cc (enabled_lem k (pos 0) none p f))
              | inr (other, f) ↦ (other, v.pointed j p f)
            ])
        v.owns

  -- Setting a handler, to a function or to none, keeps the pointers safe.
  set_handler-IsSafe :
      (k : Hook) (vinst : ℤ) (fun : Bool) (s : State W)
      → IsSafe s
      → IsSafe (set_handler api k vinst fun s)
  unfolding set_handler
  set_handler-IsSafe k vinst true s v = install-IsSafe k vinst s.handle s.callbacks s.heap s.world v
  set_handler-IsSafe k vinst false s v = unset_handler-IsSafe k s v

  -- So does the code that asks sqlite3 to put its own handler there, also where that fails.
  forget_if-IsSafe :
      (k : Hook) (rv : Code) (s : State W) (w : W)
      → ((j : Hook)
          → laws.registered j s.handle w ≡ (
              if is_ok rv
              then ite (Hook-discrete k j) none (laws.registered j s.handle s.world)
              else laws.registered j s.handle s.world))
      → IsSafe s
      → IsSafe (forget_if api k rv (record s { world = w })).1
  unfolding forget_if
  forget_if-IsSafe k rv s w r v = elim (Bool-cases (is_ok rv)) [
    | inl e ↦ rw e (
        emptied-IsSafe k s.handle s.callbacks s.heap w
          (λ j p f.
            elim (set_slot-cases Hook-discrete k j none (λ x. laws.registered x s.handle s.world) p
              (sym (rw e at (r j)) ∙ f)) [
                | inl (_, g) ↦ absurd (cc)
                | inr (other, g) ↦ (other, v.pointed j p g)
              ])
          v.owns)
    | inr e ↦
        rw e (record { pointed = λ j p f. v.pointed j p (sym (rw e at (r j)) ∙ f); owns = v.owns })
  ]

module _ {W : Type 0} (api : HookApi W) (laws : HookLaws api) where
  serve-IsSafe : (r : Request) (s : State W) → IsSafe api laws s → IsSafe api laws (serve api r s)
  unfolding serve busy_timeout wal_autocheckpoint
  serve-IsSafe (sets k vinst fun) s v =
      rw (setter_lem api k vinst fun s) (set_handler-IsSafe api laws k (number k vinst) fun s v)
  serve-IsSafe (busy_timeouts ms) s v =
      forget_if-IsSafe api laws busy _ s _ (λ j. laws.busies j s.handle ms s.world) v
  serve-IsSafe (wal_autocheckpoints frames) s v =
      forget_if-IsSafe api laws wal _ s _ (λ j. laws.wals j s.handle frames s.world) v

  -- For a sqlite3 whose hooks behave as documented, and from a safe state: whatever handlers a
  -- program sets, replaces and removes, and with whatever errors, every data pointer that sqlite3
  -- holds is that of a live object which the table owns; each such object is owned once, nothing
  -- else of them is left alive, and none was deleted twice.
  pub serve_all-IsSafe :
      (rs : List Request) (s : State W) → IsSafe api laws s → IsSafe api laws (serve_all api rs s)
  unfolding serve_all
  serve_all-IsSafe [] s v = v
  serve_all-IsSafe (r ∷ rs) s v = serve_all-IsSafe rs (serve api r s) (serve-IsSafe r s v)
