-- ===== src/Registration/Registry/Moving.antt =====
-- What the calls that register do to the table of what sqlite3 keeps with the heap, whatever else is on it.
use sqxx.Base.{ℕ, ◌≡◌, String, Bool, Option, Bool-cases, inl, inr}
use sqxx.Effect.{is_ok}
use sqxx.Heap.{Heap}
use sqxx.Slots.Moves.{Moves, keeps, drops, replaces, discards}
use sqxx.Statement.{Handle}
use sqxx.Registration.{
  Destroy, Kind, RegisterApi, Done, checked, create_function_register, create_collation_register,
  create_function, create_pointer_function, create_static_function, create_aggregate,
  create_collation, create_pointer_collation, create_static_collation, remove_function,
  remove_aggregate, remove_collation,
}
use sqxx.Registration.Registry.{
  Registering, creates_function, creates_aggregate, creates_collation, creates_pointer_function,
  creates_static_function, creates_pointer_collation, creates_static_collation, removes_function,
  removes_aggregate, removes_collation, call_of,
}
use sqxx.Registration.Registry.Laws.{RegistryLaws}
use sqxx.Registration.Registry.Settled.{
  Settled, stored, discarded, cleared, refused, call_of-Settled,
}

module _ {W K : Type 0} (api : RegisterApi W) (d : Discrete K) (handle : Handle)
    (laws : RegistryLaws api d handle) where
  settled_lem :
      (k : K) (kind : Kind) (b : Bool) (h : Heap) (w : W) (r : Done W)
      → Settled api d handle laws k kind h w r b
      → Moves d (laws.owned w) h (laws.owned r.world) r.heap
  settled_lem k kind b h w r (stored e heap owned _) = replaces k owned heap
  settled_lem k kind b h w r (discarded x e heap owned _) = discards owned heap
  settled_lem k kind b h w r (cleared e heap owned _) = drops k owned heap
  settled_lem k kind b h w r (refused x e heap owned _) = keeps owned heap

  pub call_of-Moves :
      {C : Type 0} (op : Registering C) (h : Heap) (w : W)
      → let r = call_of api handle op h w in Moves d (laws.owned w) h (laws.owned r.world) r.heap
  call_of-Moves op h w = settled_lem _ _ _ h w _ (call_of-Settled api d handle laws op h w)

-- What registering does not change: `f` is a thing that sqlite3 could be asked.
pub record Unregistered {W A : Type 0} (api : RegisterApi W) (f : W → A) : Type 0 where
  pub functions :
      (h : Handle) (name : String) (argc : ℕ) (kind : Kind) (p : Option ℕ) (destroy : Destroy)
      (heap : Heap) (w : W)
      → f (api.create_function_v2 h name argc kind p destroy heap w).2 ≡ f w
  pub collations :
      (h : Handle) (name : String) (kind : Kind) (p : Option ℕ) (destroy : Destroy) (heap : Heap)
      (w : W)
      → f (api.create_collation_v2 h name kind p destroy heap w).2 ≡ f w

module _ {W A : Type 0} (api : RegisterApi W) (f : W → A) (ignored : Unregistered api f)
    (handle : Handle) where
  collation_same :
      (name : String) (p : Option ℕ) (destroy : Destroy) (h : Heap) (w : W)
      → f (create_collation_register api handle name p destroy h w).world ≡ f w
  unfolding create_collation_register
  collation_same name p destroy h w =
      elim (Bool-cases
        (is_ok (api.create_collation_v2 handle name Kind.comparison p destroy h w).0)) [
          | inl e ↦ rw e (ignored.collations handle name Kind.comparison p destroy h w)
          | inr e ↦ rw e (ignored.collations handle name Kind.comparison p destroy h w)
        ]

  pub call_of-same :
      {C : Type 0} (op : Registering C) (h : Heap) (w : W)
      → f (call_of api handle op h w).world ≡ f w
  unfolding call_of create_function create_aggregate create_collation create_pointer_function
      create_static_function create_pointer_collation create_static_collation remove_function
      remove_aggregate remove_collation create_function_register checked
  call_of-same (creates_function name argc c) h w = ignored.functions handle name argc _ _ _ _ w
  call_of-same (creates_aggregate name nargs c) h w = ignored.functions handle name nargs _ _ _ _ w
  call_of-same (creates_collation name c) h w = collation_same name _ _ _ w
  call_of-same (creates_pointer_function name argc g) h w =
      ignored.functions handle name argc _ _ _ h w
  call_of-same (creates_static_function name argc) h w =
      ignored.functions handle name argc _ _ _ h w
  call_of-same (creates_pointer_collation name g) h w = collation_same name _ _ h w
  call_of-same (creates_static_collation name) h w = collation_same name _ _ h w
  call_of-same (removes_function name argc) h w = ignored.functions handle name argc _ _ _ h w
  call_of-same (removes_aggregate name argc) h w = ignored.functions handle name argc _ _ _ h w
  call_of-same (removes_collation name) h w = ignored.collations handle name _ _ _ h w
