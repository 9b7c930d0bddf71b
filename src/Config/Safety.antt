-- ===== src/Config/Safety.antt =====
-- The log handlers that sqlite3 holds pointers to are alive.
use mathlib.Core.Path.{subst}
use mathlib.Core.Logic.{ite}
use sqxx.Base.{
  ℕ, ◌≡◌, refl, sym, ◌∙◌, Bool, true, false, Option, none, some, List, [], ◌∷◌, Bool-cases, inl,
  inr,
}
use sqxx.Base.Int.{ℤ}
use sqxx.Effect.{Code, is_ok}
use sqxx.Heap.{new}
use sqxx.Slots.{
  set_slot, Owns, replace-Owns, discard-Owns, set_slot-cases, set_slot-eq, set_slot-ne,
}
use sqxx.Config.{
  LogHook, LogHook-discrete, ConfigCall, handler, ConfigApi, State, plain, config_no_handler,
  config_handler, keep_or_delete,
}
use sqxx.Config.Settings.{
  handler_of, shape, sets_option, sets_handler, drops_handler, Setting, configure, configure_all,
}

-- What sqlite3 documents: a call that succeeds and sets a handler changes that handler's pointer, and no
-- other call changes any.
abbrev pub pointer_after : Option (LogHook × Option ℕ) → Bool → LogHook → Option ℕ → Option ℕ
pointer_after (some (k, p)) true j old = ite (LogHook-discrete k j) p old
pointer_after (some (k, p)) false j old = old
pointer_after none ok j old = old

pub record ConfigLaws {W : Type 0} (api : ConfigApi W) : Type 0 where
  pub registered : LogHook → W → Option ℕ
  pub configures :
      (c : ConfigCall) (j : LogHook) (w : W)
      → registered j (api.config c w).2
        ≡ pointer_after (handler_of c) (is_ok (api.config c w).0) j (registered j w)

module _ {W : Type 0} (api : ConfigApi W) (laws : ConfigLaws api) where
  -- The pointers that sqlite3 holds are those that the table owns, and the heap holds what the table owns
  -- and no more.
  pub record IsSafe (s : State W) : Type 0 where
    pub pointed :
        (k : LogHook) (p : ℕ) → laws.registered k s.world ≡ some p → s.callbacks k ≡ some p
    pub owns : Owns s.callbacks s.heap

  kept_or_deleted :
      (k : LogHook) (s : State W) (r : Code × ℤ × W)
      → ((j : LogHook)
          → laws.registered j r.2
            ≡ pointer_after (some (k, some s.heap.next)) (is_ok r.0) j (laws.registered j s.world))
      → IsSafe s
      → IsSafe (keep_or_delete api k s.heap.next r (record s { heap = (new s.heap).1 })).1
  unfolding keep_or_delete
  kept_or_deleted k s r law v = elim (Bool-cases (is_ok r.0)) [
    | inl e ↦ rw e (record {
      pointed = λ j p f. kept j p (sym (rw e at (law j)) ∙ f);
      owns = replace-Owns LogHook-discrete k s.callbacks s.heap (s.callbacks k) refl v.owns;
    })
    | inr e ↦ rw e (record {
      pointed = λ j p f. v.pointed j p (sym (rw e at (law j)) ∙ f);
      owns = discard-Owns LogHook-discrete s.callbacks s.heap v.owns;
    })
  ]
    where
      kept :
          (j : LogHook) (p : ℕ)
          → ite (LogHook-discrete k j) (some s.heap.next) (laws.registered j s.world) ≡ some p
          → set_slot LogHook-discrete k (some s.heap.next) s.callbacks j ≡ some p
      kept j p f =
          elim (set_slot-cases LogHook-discrete k j (some s.heap.next)
            (λ x. laws.registered x s.world) p f) [
              | inl (same, g) ↦
                  subst (λ x. set_slot LogHook-discrete k (some s.heap.next) s.callbacks x ≡ some p)
                    same (set_slot-eq LogHook-discrete k s.callbacks (some s.heap.next) ∙ g)
              | inr (other, g) ↦
                  set_slot-ne LogHook-discrete k s.callbacks j (some s.heap.next) other
                  ∙ v.pointed j p g
            ]

  no_handler-IsSafe : (k : LogHook) (s : State W) → IsSafe s → IsSafe (config_no_handler api k s).1
  unfolding config_no_handler plain
  no_handler-IsSafe k s v = record {
    pointed = λ j p f. elim (Bool-cases (is_ok (api.config (handler k none) s.world).0)) [
      | inl e ↦
          elim (set_slot-cases LogHook-discrete k j none (λ x. laws.registered x s.world) p
            (sym (rw e at (laws.configures (handler k none) j s.world)) ∙ f)) [
              | inl (_, g) ↦ absurd (cc)
              | inr (_, g) ↦ v.pointed j p g
            ]
      | inr e ↦ v.pointed j p (sym (rw e at (laws.configures (handler k none) j s.world)) ∙ f)
    ];
    owns = v.owns;
  }

  plain-IsSafe :
      (c : ConfigCall) → handler_of c ≡ none → (s : State W) → IsSafe s → IsSafe (plain api c s).1
  unfolding plain
  plain-IsSafe c none_set s v = record {
    pointed = λ j p f. v.pointed j p (sym (rw none_set at (laws.configures c j s.world)) ∙ f);
    owns = v.owns;
  }

  handler-IsSafe : (k : LogHook) (s : State W) → IsSafe s → IsSafe (config_handler api k true s).1
  unfolding config_handler new
  handler-IsSafe k s v =
      kept_or_deleted k s _ (λ j. laws.configures (handler k (some s.heap.next)) j s.world) v

  configure-IsSafe : (r : Setting) (s : State W) → IsSafe s → IsSafe (configure api r s).1
  configure-IsSafe r s v = elim (shape api r) [
    | sets_option c none_set _ same ↦ rw (same s) (plain-IsSafe c none_set s v)
    | sets_handler k _ same ↦ rw (same s) (handler-IsSafe k s v)
    | drops_handler k _ same ↦ rw (same s) (no_handler-IsSafe k s v)
  ]

  -- For a sqlite3_config that sets its handlers as documented, and from a safe state: whatever
  -- options a program sets, with whatever errors, a log handler's pointer that sqlite3 holds is that
  -- of a live object which config_callbacks owns; each such object is owned once, nothing else of
  -- them is left alive, and none was deleted twice.
  pub configure_all-IsSafe :
      (rs : List Setting) (s : State W) → IsSafe s → IsSafe (configure_all api rs s)
  unfolding configure_all
  configure_all-IsSafe [] s v = v
  configure_all-IsSafe (r ∷ rs) s v = configure_all-IsSafe rs _ (configure-IsSafe r s v)
