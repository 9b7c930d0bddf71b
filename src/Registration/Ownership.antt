-- ===== src/Registration/Ownership.antt =====
-- Who destroys the copy of a callable, and how often.
use sqxx.Base.{ℕ, ◌≡◌, refl, String, true, false, ==_iff, arith}
use sqxx.Effect.{Outcome, returned, thrown}
use sqxx.Statement.{Handle}
use sqxx.Heap.{Heap, Cell, alive, deleted, new, delete}
use sqxx.Slots.{Owns, set_slot-eq, replace-Owns, discard-Owns}
use sqxx.Registration.{Kind, RegisterApi, Done, create_function, create_aggregate, create_collation}
use sqxx.Registration.Registry.{
  Registering, creates_function, creates_aggregate, creates_collation, call_of,
}
use sqxx.Registration.Registry.Laws.{RegistryLaws}
use sqxx.Registration.Registry.Settled.{Settled, stored, discarded, call_of-Settled}

-- What has become of an object that a call was to hand over.
abbrev pub fate : Outcome (Unit {0}) → Cell
fate (returned _) = alive
fate (thrown _) = deleted

-- The copy at `p` is alive, for sqlite3 to destroy later, where the call returned, and was destroyed where
-- it threw; nothing was destroyed twice.
abbrev pub Fate : {W : Type 0} → ℕ → Done W → Type 0
Fate p d = (d.heap.cell p ≡ fate d.result) × (d.heap.broken ≡ false)

module _ {W K : Type 0} (api : RegisterApi W) (d : Discrete K) (handle : Handle)
    (laws : RegistryLaws api d handle) where
  fate_lem :
      (k : K) (kind : Kind) (h : Heap) (w : W) (r : Done W)
      → Settled api d handle laws k kind h w r true
      → Owns (laws.owned w) h
      → Fate h.next r
  unfolding new delete
  fate_lem k kind h w r (stored e heap _ _) v =
      let kept = replace-Owns d k (laws.owned w) h (laws.owned w k) refl v in
      rw (e, heap) (kept.living k h.next (set_slot-eq d k (laws.owned w) _), kept.whole)
  fate_lem k kind h w r (discarded x e heap _ _) v =
      rw (e, heap)
        (ground (arith, (==_iff h.next h.next).1 refl), (discard-Owns d (laws.owned w) h v).whole)

  -- For a sqlite3 that keeps its registry as documented, and while the objects on the heap are those that it
  -- keeps, each once: each of create_function, create_aggregate and create_collation leaves its copy of the
  -- callable alive, for sqlite3 to destroy, where it returns, also where that replaces, and destroys, what was
  -- registered before; where it throws, the copy was destroyed, once, by sqlite3 or by the wrapper itself.
  pub create-Fate :
      (name : String) (argc : ℕ) (h : Heap) (w : W)
      → Owns (laws.owned w) h
      → Fate h.next (create_function api handle name argc h w)
        × Fate h.next (create_aggregate api handle name argc h w)
        × Fate h.next (create_collation api handle name h w)
  unfolding call_of
  create-Fate name argc h w v =
      let settled = λ (op : Registering (Unit {0})). call_of-Settled api d handle laws op h w in
      (
        fate_lem _ _ h w _ (settled (creates_function name argc tt)) v,
        fate_lem _ _ h w _ (settled (creates_aggregate name argc tt)) v,
        fate_lem _ _ h w _ (settled (creates_collation name tt)) v,
      )
