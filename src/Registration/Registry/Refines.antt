-- ===== src/Registration/Registry/Refines.antt =====
-- The registry of sqlite3 with the heap of copies refines a table of callables; nothing on the heap is
-- leaked, deleted twice, or left registered when it is gone.
use mathlib.Core.Path.{fun_ext}
use mathlib.Core.Logic.{ite}
use sqxx.Base.{ℕ, ◌≡◌, refl, ◌∙◌, ap, false, Option, none, some, List, [], ◌∷◌, ◌==◌, ==_iff, arith}
use sqxx.Effect.{Outcome, returned, thrown}
use sqxx.Heap.{Heap}
use sqxx.Slots.{Table, Owns, drop-Owns, replace-Owns, discard-Owns}
use sqxx.Statement.{Handle}
use sqxx.Registration.{Kind, RegisterApi, Done}
use sqxx.Registration.Registry.{Registering, copied, copy_at, Program, register, register_all}
use sqxx.Registration.Registry.Laws.{RegistryLaws}
use sqxx.Registration.Registry.Settled.{
  Settled, stored, discarded, cleared, refused, key_of, is_given, call_of-Settled,
}

-- What is registered: a copy, if there is one, at the address that sqlite3 keeps.
abbrev pub at_slot : {C : Type 0} → Option ℕ → (ℕ → Option C) → Option C
at_slot none copies = none
at_slot (some p) copies = copies p

-- What a call does to a table: where it returns, the key has the new value.
abbrev pub noted : {V K : Type 0} → Discrete K → K → V → Outcome (Unit {0}) → (K → V) → K → V
noted d k c (returned _) t j = ite (d k j) c (t j)
noted d k c (thrown e) t j = t j

at_slot-ite :
    {C P : Type 0} (dec : Dec P) (v w : Option ℕ) (copies : ℕ → Option C)
    → at_slot (ite dec v w) copies ≡ ite dec (at_slot v copies) (at_slot w copies)
at_slot-ite (yes p) v w copies = refl
at_slot-ite (no n) v w copies = refl

module _ {C W K : Type 0} (api : RegisterApi W) (d : Discrete K) (handle : Handle)
    (laws : RegistryLaws api d handle) where
  -- The table, as sqlite3 and the heap hold it.
  abbrev pub view : Program C W → K → Option C
  view s j = at_slot (laws.owned s.world j) s.copies

  -- sqlite3 keeps exactly the live objects, each once.
  abbrev pub IsSafe : Program C W → Type 0
  IsSafe s = Owns (laws.owned s.world) s.heap

  -- The table after the calls, of which each ended as it did.
  unfoldable pub noted_all :
      List (Registering C) → List (Outcome (Unit {0})) → (K → Option C) → K → Option C
  noted_all (op ∷ ops) (r ∷ rs) t =
      noted_all ops rs (noted d (key_of api d handle laws op) (copied op) r t)
  noted_all ops rs t = t

  -- A copy at the next address is none of those that are kept.
  copy_at-kept :
      (t : Table K) (h : Heap) (c : Option C) (copies : ℕ → Option C) (o : Option ℕ) (j : K)
      → Owns t h
      → t j ≡ o
      → at_slot o (copy_at h.next c copies) ≡ at_slot o copies
  copy_at-kept t h c copies none j v e = refl
  copy_at-kept t h none copies (some p) j v e = refl
  copy_at-kept t h (some c) copies (some p) j v e = rw other refl
    where
      other : (h.next == p) ≡ false
      other = ground (arith, v.living j p e, v.fresh p)

  settled_lem :
      (c : Option C) (k : K) (kind : Kind) (s : Program C W) (r : Done W)
      → Settled api d handle laws k kind s.heap s.world r (is_given api d handle laws c)
      → IsSafe s
      → Owns (laws.owned r.world) r.heap
        × ((j : K)
            → at_slot (laws.owned r.world j) (copy_at s.heap.next c s.copies)
              ≡ noted d k c r.result (view s) j)
  settled_lem none k kind s r (cleared a b e _) v = (
    rw (b, e) (drop-Owns d k (laws.owned s.world) s.heap _ refl v),
    λ j. rw (a, e) (at_slot-ite (d k j) none (laws.owned s.world j) s.copies),
  )
  settled_lem none k kind s r (refused x a b e _) v = (rw (b, e) v, λ j. rw (a, e) refl)
  settled_lem (some c) k kind s r (stored a b e _) v = (
    rw (b, e) (replace-Owns d k (laws.owned s.world) s.heap _ refl v),
    λ j.
        let copies = copy_at s.heap.next (some c) s.copies in
        let new_one : at_slot (some s.heap.next) copies ≡ some c =
          rw ((==_iff s.heap.next s.heap.next).1 refl) refl in
        let others = copy_at-kept (laws.owned s.world) s.heap (some c) s.copies _ j v refl in
        rw (a, e)
          (at_slot-ite (d k j) (some s.heap.next) (laws.owned s.world j) copies ∙ λ i.
            ite (d k j) (new_one i) (others i)),
  )
  settled_lem (some c) k kind s r (discarded x a b e _) v = (
    rw (b, e) (discard-Owns d (laws.owned s.world) s.heap v),
    λ j. rw (a, e) (copy_at-kept (laws.owned s.world) s.heap (some c) s.copies _ j v refl),
  )

  register_lem :
      (op : Registering C) (s : Program C W)
      → IsSafe s
      → let (r, s') = register api handle op s in
        IsSafe s' × (view s' ≡ noted d (key_of api d handle laws op) (copied op) r (view s))
  unfolding register
  register_lem op s v =
      let (safe, seen) =
        settled_lem (copied op) (key_of api d handle laws op) _ s _
          (call_of-Settled api d handle laws op s.heap s.world) v in
      (safe, fun_ext seen)

  -- For a sqlite3 that keeps its registry as documented, and while the copies on the heap are those that it
  -- keeps: whatever functions, aggregates and collations a program creates, replaces and removes, in
  -- whatever order and with whatever errors, the callables that are registered are those of a table
  -- where each call that returned has set or emptied the slot of its key, and the copies on the heap are
  -- again those that sqlite3 keeps, each once: none leaked, and none destroyed twice or too early.
  pub register_all-refines :
      (ops : List (Registering C)) (s : Program C W)
      → IsSafe s
      → let (rs, s') = register_all api handle ops s in
        IsSafe s' × (view s' ≡ noted_all ops rs (view s))
  unfolding register_all noted_all
  register_all-refines [] s v = (v, refl)
  register_all-refines (op ∷ ops) s v =
      let (safe, seen) = register_lem op s v in
      let (last, all) = register_all-refines ops (register api handle op s).1 safe in
      (last, all ∙ ap (noted_all ops _) seen)
