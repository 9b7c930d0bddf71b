-- ===== src/Registration/Registry/Settled.antt =====
-- The four ways in which a call of the library that registers or removes ends.
use sqxx.Base.{ℕ, ◌≡◌, refl, String, Bool, true, false, Option, none, some, Bool-cases, inl, inr}
use sqxx.Effect.{is_ok, Exception, returned, thrown, static_error}
use sqxx.Heap.{Heap, new, delete}
use sqxx.Slots.{set_slot}
use sqxx.Statement.{Handle}
use sqxx.Registration.{
  Destroy, Kind, scalar, aggregate, comparison, nothing, RegisterApi, Done, checked,
  appdata_destroy_object, create_function_register, create_collation_register, create_function,
  create_pointer_function, create_static_function, create_aggregate, create_collation,
  create_pointer_collation, create_static_collation, remove_function, remove_aggregate,
  remove_collation,
}
use sqxx.Registration.Registry.Laws.{RegistryLaws, entered_at}
use sqxx.Registration.Registry.{
  Registering, creates_function, creates_aggregate, creates_collation, creates_pointer_function,
  creates_static_function, creates_pointer_collation, creates_static_collation, removes_function,
  removes_aggregate, removes_collation, copied, call_of,
}

module _ {W K : Type 0} (api : RegisterApi W) (d : Discrete K) (handle : Handle)
    (laws : RegistryLaws api d handle) where
  -- How a call for the key `k` ends that is to enter `kind` there and made a copy at `h.next`, or none, from `h` and `w`.
  pub data Settled (k : K) (kind : Kind) (h : Heap) (w : W) (r : Done W) : Bool → Type 0 where
    stored :
        r.result ≡ returned tt
        → r.heap ≡ delete (laws.owned w k) (new h).1
        → laws.owned r.world ≡ set_slot d k (some h.next) (laws.owned w)
        → laws.entered r.world ≡ entered_at d k kind (laws.entered w)
        → Settled k kind h w r true
    discarded :
        (e : Exception)
        → r.result ≡ thrown e
        → r.heap ≡ delete (some h.next) (new h).1
        → laws.owned r.world ≡ laws.owned w
        → laws.entered r.world ≡ laws.entered w
        → Settled k kind h w r true
    cleared :
        r.result ≡ returned tt
        → r.heap ≡ delete (laws.owned w k) h
        → laws.owned r.world ≡ set_slot d k none (laws.owned w)
        → laws.entered r.world ≡ entered_at d k kind (laws.entered w)
        → Settled k kind h w r false
    refused :
        (e : Exception)
        → r.result ≡ thrown e
        → r.heap ≡ h
        → laws.owned r.world ≡ laws.owned w
        → laws.entered r.world ≡ laws.entered w
        → Settled k kind h w r false

  function_new :
      (name : String) (argc : ℕ) (kind : Kind) (h : Heap) (w : W)
      → Settled
          (laws.function_key name argc)
          kind
          h
          w
          (create_function_register api handle name argc kind
            (some h.next)
            (some (appdata_destroy_object h.next))
            (new h).1
            w)
          true
  unfolding create_function_register checked appdata_destroy_object
  function_new name argc kind h w =
      let p : Option ℕ = some h.next in
      let f : Destroy = some (appdata_destroy_object h.next) in
      elim (Bool-cases (is_ok (api.create_function_v2 handle name argc kind p f (new h).1 w).0)) [
        | inl e ↦
            let (a, b, c) = laws.function_works name argc kind p f (new h).1 w e in
            stored (rw e refl) a b c
        | inr e ↦
            let (a, b, c) = laws.function_fails name argc kind p f (new h).1 w e in
            discarded
              (static_error api.errstr
                (api.create_function_v2 handle name argc kind p f (new h).1 w).0)
              (rw e refl) a b c
      ]

  function_none :
      (name : String) (argc : ℕ) (kind : Kind) (p : Option ℕ) (h : Heap) (w : W)
      → Settled
          (laws.function_key name argc)
          kind
          h
          w
          (create_function_register api handle name argc kind p none h w)
          false
  unfolding create_function_register checked
  function_none name argc kind p h w =
      elim (Bool-cases (is_ok (api.create_function_v2 handle name argc kind p none h w).0)) [
        | inl e ↦
            let (a, b, c) = laws.function_works name argc kind p none h w e in
            cleared (rw e refl) a b c
        | inr e ↦
            let (a, b, c) = laws.function_fails name argc kind p none h w e in
            refused
              (static_error api.errstr (api.create_function_v2 handle name argc kind p none h w).0)
              (rw e refl) a b c
      ]

  collation_new :
      (name : String) (h : Heap) (w : W)
      → Settled
          (laws.collation_key name)
          comparison
          h
          w
          (create_collation_register api handle name
            (some h.next)
            (some (appdata_destroy_object h.next))
            (new h).1
            w)
          true
  unfolding create_collation_register appdata_destroy_object
  collation_new name h w =
      let p : Option ℕ = some h.next in
      let f : Destroy = some (appdata_destroy_object h.next) in
      let called = api.create_collation_v2 handle name comparison p f (new h).1 w in
      elim (Bool-cases (is_ok called.0)) [
        | inl e ↦
            let (a, b, c) = laws.collation_works name comparison p f (new h).1 w e in
            stored (rw e refl) (rw e a) (rw e b) (rw e c)
        | inr e ↦
            let (a, b, c) = laws.collation_fails name comparison p f (new h).1 w e in
            discarded (static_error api.errstr called.0) (rw e refl) (rw (e, a) refl) (rw e b)
              (rw e c)
      ]

  collation_none :
      (name : String) (p : Option ℕ) (h : Heap) (w : W)
      → Settled
          (laws.collation_key name)
          comparison
          h
          w
          (create_collation_register api handle name p none h w)
          false
  unfolding create_collation_register
  collation_none name p h w =
      let called = api.create_collation_v2 handle name comparison p none h w in
      elim (Bool-cases (is_ok called.0)) [
        | inl e ↦
            let (a, b, c) = laws.collation_works name comparison p none h w e in
            cleared (rw e refl) (rw e a) (rw e b) (rw e c)
        | inr e ↦
            let (a, b, c) = laws.collation_fails name comparison p none h w e in
            refused (static_error api.errstr called.0) (rw e refl) (rw e a) (rw e b) (rw e c)
      ]

  collation_removed :
      (name : String) (h : Heap) (w : W)
      → Settled (laws.collation_key name) nothing h w (remove_collation api handle name h w) false
  unfolding remove_collation checked
  collation_removed name h w =
      let called = api.create_collation_v2 handle name nothing none none h w in
      elim (Bool-cases (is_ok called.0)) [
        | inl e ↦
            let (a, b, c) = laws.collation_works name nothing none none h w e in
            cleared (rw e refl) a b c
        | inr e ↦
            let (a, b, c) = laws.collation_fails name nothing none none h w e in
            refused (static_error api.errstr called.0) (rw e refl) a b c
      ]

module _ {C W K : Type 0} (api : RegisterApi W) (d : Discrete K) (handle : Handle)
    (laws : RegistryLaws api d handle) where
  -- The key that a call is about.
  abbrev pub key_of : Registering C → K
  key_of (creates_function name argc c) = laws.function_key name argc
  key_of (creates_aggregate name nargs c) = laws.function_key name nargs
  key_of (creates_collation name c) = laws.collation_key name
  key_of (creates_pointer_function name argc f) = laws.function_key name argc
  key_of (creates_static_function name argc) = laws.function_key name argc
  key_of (creates_pointer_collation name f) = laws.collation_key name
  key_of (creates_static_collation name) = laws.collation_key name
  key_of (removes_function name argc) = laws.function_key name argc
  key_of (removes_aggregate name argc) = laws.function_key name argc
  key_of (removes_collation name) = laws.collation_key name

  -- What it is to enter there.
  abbrev pub kind_of : Registering C → Kind
  kind_of (creates_function name argc c) = scalar
  kind_of (creates_pointer_function name argc f) = scalar
  kind_of (creates_static_function name argc) = scalar
  kind_of (creates_aggregate name nargs c) = aggregate
  kind_of (creates_collation name c) = comparison
  kind_of (creates_pointer_collation name f) = comparison
  kind_of (creates_static_collation name) = comparison
  kind_of _ = nothing

  abbrev pub is_given : Option C → Bool
  is_given none = false
  is_given (some c) = true

  -- Each call ends in one of the ways for its key.
  pub call_of-Settled :
      (op : Registering C) (h : Heap) (w : W)
      → Settled api d handle laws
          (key_of op)
          (kind_of op)
          h
          w
          (call_of api handle op h w)
          (is_given (copied op))
  unfolding call_of create_function create_aggregate create_collation create_pointer_function
      create_static_function create_pointer_collation create_static_collation remove_function
      remove_aggregate appdata_destroy_object new
  call_of-Settled (creates_function name argc c) h w =
      function_new api d handle laws name argc scalar h w
  call_of-Settled (creates_aggregate name nargs c) h w =
      function_new api d handle laws name nargs aggregate h w
  call_of-Settled (creates_collation name c) h w = collation_new api d handle laws name h w
  call_of-Settled (creates_pointer_function name argc f) h w =
      function_none api d handle laws name argc scalar (some f) h w
  call_of-Settled (creates_static_function name argc) h w =
      function_none api d handle laws name argc scalar none h w
  call_of-Settled (creates_pointer_collation name f) h w =
      collation_none api d handle laws name (some f) h w
  call_of-Settled (creates_static_collation name) h w =
      collation_none api d handle laws name none h w
  call_of-Settled (removes_function name argc) h w =
      function_none api d handle laws name argc nothing none h w
  call_of-Settled (removes_aggregate name argc) h w =
      function_none api d handle laws name argc nothing none h w
  call_of-Settled (removes_collation name) h w = collation_removed api d handle laws name h w
