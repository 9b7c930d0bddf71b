-- ===== src/Registration/Registry/Calling.antt =====
-- SQL functions, aggregates and collations that are used once a program has registered them: sqlite3 gives
-- function_call, the step and final functions and collation_compare the pointer that it keeps.
use sqxx.Base.{◌≡◌, ◌∙◌, sym, ap, List}
use sqxx.Base.Int.{ℤ}
use sqxx.Statement.{Handle}
use sqxx.Callbacks.{Log, ExceptionHandler}
use sqxx.Function.Aggregate.{ContextApi}
use sqxx.Registration.{RegisterApi}
use sqxx.Registration.Registry.{Registering, Program, register_all}
use sqxx.Registration.Registry.Kinds.{
  kinds_all, entered-register_all, Agrees, Typed, noted_all-Agrees,
}
use sqxx.Registration.Registry.Known.{IsKnown, register_all-IsKnown}
use sqxx.Registration.Registry.Laws.{RegistryLaws}
use sqxx.Registration.Registry.Refines.{view, IsSafe, noted_all, register_all-refines}
use sqxx.Registration.Registry.Using.{
  Entry, Use, Reply, tag, HasMemory, answer, run_pointer, run_pointer_lem,
}

module _ {A B C D S U W K : Type 0} (context : ContextApi S C) (ignore : ℤ) (h : ExceptionHandler U)
    (api : RegisterApi W) (d : Discrete K) (handle : Handle)
    (laws : RegistryLaws api d handle) where
  -- The use in SQL of what sqlite3 has under a key: the callbacks and the pointer that were registered.
  unfoldable pub use_registered :
      Program (Entry A B D S U) W → K → Use A B → Log U → C → Reply D × Log U × C
  unfolding run_pointer
  use_registered s k x l c =
      run_pointer context ignore h (laws.entered s.world k) (laws.owned s.world k) s.heap s.copies x
        l c

  -- For a sqlite3 that keeps its registry as documented, and has memory for the aggregate: after whatever
  -- creations, replacements and removals, each of an object of the type that the call is for, what SQL uses
  -- under a key is what the tables have for it, that of what was last entered there, and that of the callables.
  -- A function runs its callable once, with the arguments in order, where there are as many as it takes, and is
  -- a misuse otherwise; an aggregate gives its final function on the fold of its step function over
  -- the rows, from the start state, of which a copy is that state; a collation that throws makes the
  -- texts equal; a use of another kind than what is registered finds nothing; and no use meets an object that
  -- is gone, was never made, or is one of another type.
  pub use_registered-register_all :
      (ops : List (Registering (Entry A B D S U))) (s : Program (Entry A B D S U) W) (k : K)
      (x : Use A B) (l : Log U) (c : C)
      → IsSafe api d handle laws s
      → IsKnown api d handle laws s
      → Agrees api d handle laws tag (view api d handle laws s) (laws.entered s.world)
      → Typed api d handle laws tag ops
      → let (rs, s') = register_all api handle ops s in
        let entry = noted_all api d handle laws ops rs (view api d handle laws s) k in
        let kind = kinds_all api d handle laws ops rs (laws.entered s.world) k in
        HasMemory context entry l
        → use_registered s' k x l c ≡ answer context ignore h kind x entry l c
  unfolding use_registered
  use_registered-register_all ops s k x l c v known agrees typed memory =
      let (rs, s') = register_all api handle ops s in
      let (safe, seen) = register_all-refines api d handle laws ops s v in
      let kinds = entered-register_all api d handle laws ops s in
      let all = noted_all-Agrees api d handle laws tag ops rs _ _ typed agrees in
      let at_key = ap (λ t. t k) seen in
      run_pointer_lem context ignore h (laws.entered s'.world k) (laws.owned s'.world k) s'.heap
        s'.copies x l c
        (λ p e. (safe.living k p e, register_all-IsKnown api d handle laws ops s known k p e))
        (λ e f. ap (λ t. t k) kinds ∙ all k e (sym at_key ∙ f)) (rw at_key memory)
      ∙ (λ i. answer context ignore h (kinds i k) x (seen i k) l c)
