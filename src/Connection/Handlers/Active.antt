-- ===== src/Connection/Handlers/Active.antt =====
-- The handlers of a connection as a table: which of the hooks have one.
use mathlib.Core.Path.{fun_ext, subst}
use mathlib.Core.Logic.{ite, if_pos, if_neg}
use sqxx.Base.{
  ℕ, zero, suc, ◌&&◌, arith, ◌⊎◌, ◌≡◌, refl, sym, ◌∙◌, ap, Bool, true, false, Option, none, some,
  List, [], ◌∷◌, if◌then◌else◌, Bool-cases, inl, inr,
}
use sqxx.Base.Int.{ℤ, pos, negsuc, ltb_ℤ}
use sqxx.Effect.{Code, Exception, Outcome, returned, thrown, is_ok}
use sqxx.Statement.{Handle}
use sqxx.Heap.{Heap}
use sqxx.Slots.{Table}
use sqxx.Connection.Handlers.{
  Hook, commit, rollback, update, trace, profile, authorize, progress, collation, busy, wal,
  Hook-discrete, HookApi, State, slot, forget_if, assign, install, unset_handler, set_handler,
  busy_timeout, wal_autocheckpoint,
}
use sqxx.Connection.Handlers.Requests.{
  Request, sets, busy_timeouts, wal_autocheckpoints, number, setter_lem, serve, serve_all,
}
use sqxx.Connection.Handlers.Safety.{HookLaws, enabled}

abbrev pub is_set : Option ℕ → Bool
is_set none = false
is_set (some p) = true

abbrev pub updated : Hook → Bool → (Hook → Bool) → Hook → Bool
updated k b t j = ite (Hook-discrete k j) b (t j)

-- A progress handler that is to be called every `vinst` instructions is one that is called, for 1 and more.
abbrev pub reports : Hook → ℤ → Bool
reports progress vinst = ltb_ℤ (pos 0) vinst
reports _ vinst = true

-- What a request does to the table: sqlite3's own handlers take the place of the program's, if the
-- call succeeds.
abbrev pub requested : Request → Outcome (Unit {0}) → (Hook → Bool) → Hook → Bool
requested (sets k vinst fun) r t = updated k (fun && reports k vinst) t
requested (busy_timeouts ms) (returned _) t = updated busy false t
requested (wal_autocheckpoints frames) (returned _) t = updated wal false t
requested r (thrown e) t = t

module _ {W : Type 0} (api : HookApi W) where
  -- How a request ends; setting a handler always returns.
  unfoldable pub ends : Request → State W → Outcome (Unit {0})
  ends (sets k vinst fun) s = returned tt
  ends (busy_timeouts ms) s = (busy_timeout api ms s).0
  ends (wal_autocheckpoints frames) s = (wal_autocheckpoint api frames s).0

  unfoldable pub requested_all : List Request → State W → (Hook → Bool) → Hook → Bool
  requested_all [] s t = t
  requested_all (r ∷ rs) s t = requested_all rs (serve api r s) (requested r (ends r s) t)

-- sqlite3 has the pointer that the table has, or none where it is that of a disabled progress handler.
abbrev pub Held : Hook → Option ℕ → Option ℕ → Type 0
Held k registered owned = (registered ≡ owned) ⊎ ((k ≡ progress) × (registered ≡ none))

enabled-Held : (k : Hook) (vinst : ℤ) (p : Option ℕ) → Held k (enabled k vinst p) p
enabled-Held progress (pos zero) p = inr (refl, refl)
enabled-Held progress (pos (suc n)) p = inl refl
enabled-Held progress (negsuc n) p = inr (refl, refl)
enabled-Held commit vinst p = inl refl
enabled-Held rollback vinst p = inl refl
enabled-Held update vinst p = inl refl
enabled-Held trace vinst p = inl refl
enabled-Held profile vinst p = inl refl
enabled-Held authorize vinst p = inl refl
enabled-Held busy vinst p = inl refl
enabled-Held wal vinst p = inl refl
enabled-Held collation vinst p = inl refl

is_set-enabled :
    (k : Hook) (vinst : ℤ) (p : ℕ) → is_set (enabled k (number k vinst) (some p)) ≡ reports k vinst
is_set-enabled progress (pos zero) p = refl
is_set-enabled progress (pos (suc n)) p = ground arith
is_set-enabled progress (negsuc n) p = ground arith
is_set-enabled _ vinst p = refl

enabled-none : (k : Hook) (vinst : ℤ) → enabled k vinst none ≡ none
enabled-none progress (pos zero) = refl
enabled-none progress (pos (suc n)) = refl
enabled-none progress (negsuc n) = refl
enabled-none _ vinst = refl

ite-Held :
    (k j : Hook) (v' v r s : Option ℕ)
    → Held k v' v
    → Held j r s
    → Held j (ite (Hook-discrete k j) v' r) (ite (Hook-discrete k j) v s)
ite-Held k j v' v r s new old = elim (Hook-discrete k j) [
  | yes same ↦
      rw (if_pos (Hook-discrete k j) same v' r, if_pos (Hook-discrete k j) same v s)
        (subst (λ x. Held x v' v) same new)
  | no other ↦ rw (if_neg (Hook-discrete k j) other v' r, if_neg (Hook-discrete k j) other v s) old
]

module _ {W : Type 0} (api : HookApi W) (laws : HookLaws api) where
  -- sqlite3 holds exactly the pointers of the table, but for a progress handler that is disabled.
  abbrev pub IsExact : State W → Type 0
  IsExact s = (k : Hook) → Held k (laws.registered k s.handle s.world) (slot s.callbacks k)

  -- The hooks that have a handler.
  abbrev pub active : State W → Hook → Bool
  active s k = is_set (laws.registered k s.handle s.world)

  is_set-ite :
      {P : Type 0} (d : Dec P) (v w : Option ℕ) → is_set (ite d v w) ≡ ite d (is_set v) (is_set w)
  is_set-ite (yes p) v w = refl
  is_set-ite (no n) v w = refl

  -- The state after, with its table.
  abbrev Becomes : Hook → Bool → (Hook → Option ℕ) → State W → Type 0
  Becomes k b old s = IsExact s × ((j : Hook) → active s j ≡ updated k b (λ i. is_set (old i)) j)

  -- The slot of a hook was given this pointer in the table, and sqlite3 has it, or has disabled it.
  given_lem :
      (k : Hook) (v' v : Option ℕ) (old slots : Hook → Option ℕ) (s : State W)
      → Held k v' v
      → ((j : Hook) → Held j (old j) (slots j))
      → ((j : Hook) → laws.registered j s.handle s.world ≡ ite (Hook-discrete k j) v' (old j))
      → ((j : Hook) → slot s.callbacks j ≡ ite (Hook-discrete k j) v (slots j))
      → Becomes k (is_set v') old s
  given_lem k v' v old slots s new held r t = (
    λ j. rw (r j, t j) (ite-Held k j v' v (old j) (slots j) new (held j)),
    λ j. ap is_set (r j) ∙ is_set-ite (Hook-discrete k j) v' (old j),
  )

  ite-same : {P : Type 0} (d : Dec P) (v : Option ℕ) → v ≡ ite d v v
  ite-same (yes p) v = refl
  ite-same (no n) v = refl

  emptied_lem :
      (k : Hook) (h : Handle) (c : Option (Table Hook)) (w : W) (heap : Heap)
      (old : Hook → Option ℕ)
      → ((j : Hook) → laws.registered j h w ≡ ite (Hook-discrete k j) none (old j))
      → ((j : Hook) → Held j (old j) (slot c j))
      → Becomes k false old
          (assign k none (record { handle = h; callbacks = c; heap = heap; world = w }))
  unfolding assign
  emptied_lem k h none w heap old r held =
      given_lem k none none old (slot none)
        (record { handle = h; callbacks = none; heap = heap; world = w }) (inl refl) held r
        (λ j. ite-same (Hook-discrete k j) none)
  emptied_lem k h (some x) w heap old r held =
      given_lem k none none old x
        (assign k none (record { handle = h; callbacks = some x; heap = heap; world = w }))
        (inl refl) held r (λ j. refl)

  installed_lem :
      (k : Hook) (vinst : ℤ) (h : Handle) (c : Option (Table Hook)) (heap : Heap) (w : W)
      → let s : State W = record { handle = h; callbacks = c; heap = heap; world = w } in
        IsExact s
        → Becomes k
            (is_set (enabled k vinst (some heap.next)))
            (λ j. laws.registered j h w)
            (install api k vinst s)
  unfolding install
  installed_lem k vinst h none heap w v =
      given_lem k (enabled k vinst (some heap.next)) (some heap.next) (λ j. laws.registered j h w)
        (slot none)
        (install api k vinst (record { handle = h; callbacks = none; heap = heap; world = w }))
        (enabled-Held k vinst (some heap.next)) v (λ j. laws.hooks k j h vinst (some heap.next) w)
        (λ j. refl)
  installed_lem k vinst h (some t) heap w v =
      given_lem k (enabled k vinst (some heap.next)) (some heap.next) (λ j. laws.registered j h w) t
        (install api k vinst (record { handle = h; callbacks = some t; heap = heap; world = w }))
        (enabled-Held k vinst (some heap.next)) v (λ j. laws.hooks k j h vinst (some heap.next) w)
        (λ j. refl)

  set_handler_lem :
      (k : Hook) (vinst : ℤ) (fun : Bool) (s : State W)
      → IsExact s
      → Becomes k
          (fun && reports k vinst)
          (λ j. laws.registered j s.handle s.world)
          (set_handler api k (number k vinst) fun s)
  unfolding set_handler unset_handler
  set_handler_lem k vinst true s v =
      rw (sym (is_set-enabled k vinst s.heap.next))
        (installed_lem k (number k vinst) s.handle s.callbacks s.heap s.world v)
  set_handler_lem k vinst false s v =
      emptied_lem k s.handle s.callbacks _ s.heap (λ j. laws.registered j s.handle s.world)
        (λ j.
          laws.hooks k j s.handle (pos 0) none s.world
          ∙ ap (λ x. ite (Hook-discrete k j) x (laws.registered j s.handle s.world))
              (enabled-none k (pos 0)))
        v

  -- Where sqlite3 puts its own handler in the place of the program's.
  abbrev Forgets : Hook → Request → State W → Outcome (Unit {0}) × State W → Type 0
  Forgets k r s (o, s') = IsExact s' × ((j : Hook) → active s' j ≡ requested r o (active s) j)

  forget_lem :
      (k : Hook) (r : Request) (rv : Code) (s : State W) (w : W)
      → ((o : Unit {0}) (t : Hook → Bool) → requested r (returned o) t ≡ updated k false t)
      → ((e : Exception) (t : Hook → Bool) → requested r (thrown e) t ≡ t)
      → ((j : Hook)
          → laws.registered j s.handle w ≡ (
              if is_ok rv
              then ite (Hook-discrete k j) none (laws.registered j s.handle s.world)
              else laws.registered j s.handle s.world))
      → IsExact s
      → Forgets k r s (forget_if api k rv (record s { world = w }))
  unfolding forget_if
  forget_lem k r rv s w good bad law v = elim (Bool-cases (is_ok rv)) [
    | inl e ↦
        let (exact, table) =
          emptied_lem k s.handle s.callbacks w s.heap (λ j. laws.registered j s.handle s.world)
            (λ j. rw e at (law j)) v in
        rw e (exact, λ j. table j ∙ ap (λ t. t j) (sym (good tt (active s))))
    | inr e ↦ rw e (
      (λ j. subst (λ r. Held j r (slot s.callbacks j)) (sym (rw e at (law j))) (v j)),
      λ j. ap is_set (rw e at (law j)) ∙ ap (λ t. t j) (sym (bad _ (active s))),
    )
  ]

  pub serve_lem :
      (r : Request) (s : State W)
      → IsExact s
      → IsExact (serve api r s)
        × ((j : Hook) → active (serve api r s) j ≡ requested r (ends api r s) (active s) j)
  unfolding serve ends busy_timeout wal_autocheckpoint
  serve_lem (sets k vinst fun) s v =
      rw (setter_lem api k vinst fun s) (set_handler_lem k vinst fun s v)
  serve_lem (busy_timeouts ms) s v =
      forget_lem busy (busy_timeouts ms) _ s _ (λ o t. refl) (λ e t. refl)
        (λ j. laws.busies j s.handle ms s.world) v
  serve_lem (wal_autocheckpoints frames) s v =
      forget_lem wal (wal_autocheckpoints frames) _ s _ (λ o t. refl) (λ e t. refl)
        (λ j. laws.wals j s.handle frames s.world) v

  -- For a sqlite3 whose hooks behave as documented, and while its hooks hold what the table of the connection
  -- owns, a disabled progress handler excepted: after whatever handlers a program sets, replaces and
  -- removes, and whatever busy timeouts and automatic checkpoints it asks for, with whatever errors, that is
  -- so again, and a hook has a handler just where it was set last to a function, for the progress
  -- handler with a number of instructions of 1 or more, and where no busy timeout or automatic checkpoint
  -- that succeeded has taken its place since.
  pub serve_all-refines :
      (rs : List Request) (s : State W)
      → IsExact s
      → IsExact (serve_all api rs s)
        × (active (serve_all api rs s) ≡ requested_all api rs s (active s))
  unfolding serve_all requested_all
  serve_all-refines [] s v = (v, refl)
  serve_all-refines (r ∷ rs) s v =
      let (exact, table) = serve_lem r s v in
      let (last, all) = serve_all-refines rs (serve api r s) exact in
      (last, all ∙ ap (requested_all api rs (serve api r s)) (fun_ext table))
