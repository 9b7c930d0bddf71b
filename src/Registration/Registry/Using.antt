-- ===== src/Registration/Registry/Using.antt =====
-- What SQL can do with what is registered: callables of each kind, how sqlite3 runs what it was given, and what a
-- table of callables promises.
use sqxx.Base.{
  Bool, true, false, ℕ, ◌≡◌, refl, sym, Option, none, some, List, [], ◌∷◌, if◌then◌else◌, ◌==◌,
  ==_iff, Bool-cases, inl, inr,
}
use sqxx.Base.Int.{ℤ, pos}
use sqxx.Effect.{Outcome, returned, thrown}
use sqxx.Heap.{Cell, alive, Heap}
use sqxx.Callbacks.{
  Log, Handler, ExceptionHandler, handle_callback_exception, collation_compare, guarded, caught,
}
use sqxx.Function.{Callable, Output, Result, function_call, finish_call, result_error_misuse}
use sqxx.Function.Apply.{items, function_call_lem}
use sqxx.Function.Aggregate.{absent, ContextApi, Aggregate}
use sqxx.Function.Aggregate.Fold.{ContextLaws}
use sqxx.Function.Aggregate.Group.{
  summarise, fold_rows, summary, summarise_lem, summarise_misuse, summarise-none,
}
use sqxx.Registration.{Kind, scalar, aggregate, comparison}
use sqxx.Registration.Registry.Refines.{at_slot}

-- What a program registers: the callable of a function with its number of arguments, the data of an
-- aggregate, or the comparison of a collation. `A` are the arguments of SQL, `B` its texts, and `U` is the
-- program's own state.
pub data Entry (A B D S U : Type 0) : Type 0 where
  scalar_entry : ℕ → Callable A (Log U) (Output D) → Entry A B D S U
  aggregate_entry : Aggregate A D S (Log U) → Entry A B D S U
  collation_entry : Handler U (B × B) ℤ → Entry A B D S U

-- What SQL does with a name: a call of a function, a group of rows for an aggregate, or a comparison.
pub data Use (A B : Type 0) : Type 0 where
  calls : ℕ → (ℕ → A) → Use A B
  groups : ℕ → List (ℕ → A) → Use A B
  compares : B × B → Use A B

-- How that ends: nothing of that kind is registered; a plain function is, which needs no copy, and whose call is
-- not modelled here; the object is gone; an object was read that was never made, or that is one of another
-- type; or there is a result.
pub data Reply (D : Type 0) : Type 0 where
  unregistered plain dangling undefined : Reply D
  gives : Result D → Reply D
  compared : ℤ → Reply D

-- Which of the three kinds sqlite3 has to have under a name for such a use.
abbrev pub serves : {A B : Type 0} → Kind → Use A B → Bool
serves scalar (calls argc argv) = true
serves aggregate (groups argc rows) = true
serves comparison (compares texts) = true
serves _ x = false

-- The kind that an object of this type is made for.
abbrev pub tag : {A B D S U : Type 0} → Entry A B D S U → Kind
tag (scalar_entry n f) = scalar
tag (aggregate_entry agg) = aggregate
tag (collation_entry f) = comparison

abbrev undefined_or : {D : Type 0} → Option (Result D) → Reply D
undefined_or none = undefined
undefined_or (some res) = gives res

-- A comparison that throws makes the texts equal, and the handler of exceptions gets to know.
abbrev pub ordered : {U : Type 0} → ExceptionHandler U → Outcome ℤ × Log U → ℤ × Log U
ordered h (returned z, l) = (z, l)
ordered h (thrown e, l) = (pos 0, handle_callback_exception h "collation function" e l)

-- The result of a group of rows, without the memory that sqlite3 keeps for it.
abbrev pub group_answer :
    {A D S U : Type 0} → Aggregate A D S U → ℕ → List (ℕ → A) → U → Result D × U
group_answer agg argc [] u = summary agg (none, (agg.state_zero, u))
group_answer agg argc (argv ∷ rows) u =
    if argc == agg.nargs
    then summary agg (fold_rows agg (argv ∷ rows) (agg.state_zero, u))
    else (result_error_misuse, (summary agg (none, (agg.state_zero, u))).1)

-- For an aggregate: sqlite3 has memory for its state, and the copy of its start state is that state.
abbrev pub HasMemory :
    {A B C D S U : Type 0} → ContextApi S C → Option (Entry A B D S U) → Log U → Type 0
HasMemory context (some (aggregate_entry agg)) l =
    ContextLaws context agg.size × (agg.copy agg.state_zero l ≡ (returned agg.state_zero, l))
HasMemory context e l = Unit {0}

compare_lem :
    {B U : Type 0} (ignore : ℤ) (h : ExceptionHandler U) (f : Handler U (B × B) ℤ) (texts : B × B)
    (l : Log U)
    → collation_compare ignore h f texts l ≡ ordered h (f texts l)
unfolding collation_compare guarded
compare_lem {U = U} ignore h f texts l = go (f texts l)
  where
    go : (x : Outcome ℤ × Log U) → caught h "collation function" (pos 0) x ≡ ordered h x
    go (returned z, l) = refl
    go (thrown e, l) = refl

group_lem :
    {A C D S U : Type 0} (context : ContextApi S C) (agg : Aggregate A D S U) (argc : ℕ)
    (rows : List (ℕ → A)) (u : U) (c : C)
    → ContextLaws context agg.size
    → agg.copy agg.state_zero u ≡ (returned agg.state_zero, u)
    → let (res, r) =
        summarise context agg argc rows (record { memory = absent; user = u; world = c }) in
      let (res', u') = group_answer agg argc rows u in
      ◌≡◌ {A = Reply D × U × C} (undefined_or res, r.user, r.world) (gives res', u', c)
group_lem context agg argc [] u c laws e = rw (summarise-none context agg laws argc u c) refl
group_lem context agg argc (argv ∷ rows) u c laws e = elim (Bool-cases (argc == agg.nargs)) [
  | inl same ↦
      rw (same, (==_iff argc agg.nargs).0 same, summarise_lem context agg laws (argv ∷ rows) u c e)
        refl
  | inr other ↦ rw (other, summarise_misuse context agg laws argc argv rows u c other) refl
]

module _ {A B C D S U : Type 0} (context : ContextApi S C) (ignore : ℤ)
    (h : ExceptionHandler U) where
  -- `C` is the part of sqlite3 that has the memory of aggregates. The pointer is cast to the type that the
  -- callback is for, which is undefined where the object is of another.
  unfoldable run_entry : Use A B → Option (Entry A B D S U) → Log U → C → Reply D × Log U × C
  run_entry (calls argc argv) (some (scalar_entry n f)) l c =
      let (res, l') = function_call n f argc argv l in (gives res, l', c)
  run_entry (groups argc rows) (some (aggregate_entry agg)) l c =
      let (res, r) =
        summarise context agg argc rows (record { memory = absent; user = l; world = c }) in
      (undefined_or res, r.user, r.world)
  run_entry (compares texts) (some (collation_entry f)) l c =
      let (z, l') = collation_compare ignore h f texts l in (compared z, l', c)
  run_entry _ e l c = (undefined, l, c)

  unfoldable run_object :
      Cell → Use A B → Option (Entry A B D S U) → Log U → C → Reply D × Log U × C
  unfolding run_entry
  run_object alive x e l c = run_entry x e l c
  run_object _ x e l c = (dangling, l, c)

  unfoldable run_data :
      Option ℕ → Heap → (ℕ → Option (Entry A B D S U)) → Use A B → Log U → C → Reply D × Log U × C
  unfolding run_object
  run_data none heap copies x l c = (plain, l, c)
  run_data (some p) heap copies x l c = run_object (heap.cell p) x (copies p) l c

  -- sqlite3 runs the callbacks that it was given, with the pointer that it was given.
  unfoldable pub run_pointer :
      Kind
      → Option ℕ
      → Heap
      → (ℕ → Option (Entry A B D S U))
      → Use A B
      → Log U
      → C
      → Reply D × Log U × C
  unfolding run_data
  run_pointer kind o heap copies x l c =
      if serves kind x then run_data o heap copies x l c else (unregistered, l, c)

  abbrev given : Use A B → Option (Entry A B D S U) → Log U → C → Reply D × Log U × C
  given (calls argc argv) (some (scalar_entry n f)) l c =
      let (res, l') =
        if argc == n then finish_call (f (items 0 n argv) l) else (result_error_misuse, l) in
      (gives res, l', c)
  given (groups argc rows) (some (aggregate_entry agg)) l c =
      let (res, l') = group_answer agg argc rows l in (gives res, l', c)
  given (compares texts) (some (collation_entry f)) l c =
      let (z, l') = ordered h (f texts l) in (compared z, l', c)
  given _ _ l c = (plain, l, c)

  -- What a table of kinds and one of callables promise.
  abbrev pub answer : Kind → Use A B → Option (Entry A B D S U) → Log U → C → Reply D × Log U × C
  answer kind x e l c = if serves kind x then given x e l c else (unregistered, l, c)

  run_entry_lem :
      (x : Use A B) (e : Entry A B D S U) (l : Log U) (c : C)
      → serves (tag e) x ≡ true
      → HasMemory context (some e) l
      → run_entry x (some e) l c ≡ given x (some e) l c
  unfolding run_entry
  run_entry_lem (calls argc argv) (scalar_entry n f) l c m v =
      rw (function_call_lem f argv n argc l) refl
  run_entry_lem (groups argc rows) (aggregate_entry agg) l c m v =
      group_lem context agg argc rows l c v.0 v.1
  run_entry_lem (compares texts) (collation_entry f) l c m v =
      rw (compare_lem ignore h f texts l) refl
  run_entry_lem _ _ l c m v = absurd (cc)

  given-none :
      (x : Use A B) (l : Log U) (c : C)
      → let e : Option (Entry A B D S U) = none in given x e l c ≡ (plain, l, c)
  given-none (calls argc argv) l c = refl
  given-none (groups argc rows) l c = refl
  given-none (compares texts) l c = refl

  run_data_lem :
      (kind : Kind) (o : Option ℕ) (heap : Heap) (copies : ℕ → Option (Entry A B D S U))
      (x : Use A B) (l : Log U) (c : C)
      → ((p : ℕ)
          → o ≡ some p
          → (heap.cell p ≡ alive) × ((e : Entry A B D S U) × (copies p ≡ some e)))
      → ((e : Entry A B D S U) → at_slot o copies ≡ some e → kind ≡ tag e)
      → serves kind x ≡ true
      → HasMemory context (at_slot o copies) l
      → run_data o heap copies x l c ≡ given x (at_slot o copies) l c
  unfolding run_data run_object
  run_data_lem kind none heap copies x l c living typed m v = sym (given-none x l c)
  run_data_lem kind (some p) heap copies x l c living typed m v =
      let (here, (e, copied)) = living p refl in
      rw (here, copied) (run_entry_lem x e l c (rw (typed e copied) at m) (rw copied at v))

  pub run_pointer_lem :
      (kind : Kind) (o : Option ℕ) (heap : Heap) (copies : ℕ → Option (Entry A B D S U))
      (x : Use A B) (l : Log U) (c : C)
      → ((p : ℕ)
          → o ≡ some p
          → (heap.cell p ≡ alive) × ((e : Entry A B D S U) × (copies p ≡ some e)))
      → ((e : Entry A B D S U) → at_slot o copies ≡ some e → kind ≡ tag e)
      → HasMemory context (at_slot o copies) l
      → run_pointer kind o heap copies x l c ≡ answer kind x (at_slot o copies) l c
  unfolding run_pointer
  run_pointer_lem kind o heap copies x l c living typed v = elim (Bool-cases (serves kind x)) [
    | inl m ↦ rw m (run_data_lem kind o heap copies x l c living typed m v)
    | inr m ↦ rw m refl
  ]
