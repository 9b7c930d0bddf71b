-- ===== src/Registration/Registry.antt =====
-- The calls that a program makes to register and remove SQL functions, aggregates and collations, as
-- values; and what they promise: a table of the callable objects that are registered.
pub mod Laws
pub mod Settled
pub mod Refines
pub mod Kinds
pub mod Known
pub mod Using
pub mod Calling
pub mod Moving
use sqxx.Base.{ℕ, String, Option, none, some, List, [], ◌∷◌, if◌then◌else◌, ◌==◌}
use sqxx.Effect.{Outcome, returned, thrown}
use sqxx.Heap.{Heap}
use sqxx.Statement.{Handle}
use sqxx.Registration.{
  RegisterApi, Done, create_function, create_pointer_function, create_static_function,
  create_aggregate, create_collation, create_pointer_collation, create_static_collation,
  remove_function, remove_aggregate, remove_collation,
}

-- `C` are the callable objects; a plain function is its address.
pub data Registering (C : Type 0) : Type 0 where
  creates_function creates_aggregate : String → ℕ → C → Registering C
  creates_collation : String → C → Registering C
  creates_pointer_function : String → ℕ → ℕ → Registering C
  creates_static_function : String → ℕ → Registering C
  creates_pointer_collation : String → ℕ → Registering C
  creates_static_collation : String → Registering C
  removes_function removes_aggregate : String → ℕ → Registering C
  removes_collation : String → Registering C

-- The object that a call makes a copy of.
abbrev pub copied : {C : Type 0} → Registering C → Option C
copied (creates_function name argc c) = some c
copied (creates_aggregate name nargs c) = some c
copied (creates_collation name c) = some c
copied _ = none

-- `copies` tells of each address on the heap which callable was copied there.
pub record Program (C W : Type 0) : Type 0 where
  pub heap : Heap
  pub copies : ℕ → Option C
  pub world : W

abbrev pub copy_at : {C : Type 0} → ℕ → Option C → (ℕ → Option C) → ℕ → Option C
copy_at p none copies q = copies q
copy_at p (some c) copies q = if p == q then some c else copies q

module _ {C W : Type 0} (api : RegisterApi W) (handle : Handle) where
  unfoldable pub call_of : Registering C → Heap → W → Done W
  call_of (creates_function name argc c) = create_function api handle name argc
  call_of (creates_aggregate name nargs c) = create_aggregate api handle name nargs
  call_of (creates_collation name c) = create_collation api handle name
  call_of (creates_pointer_function name argc f) = create_pointer_function api handle name argc f
  call_of (creates_static_function name argc) = create_static_function api handle name argc
  call_of (creates_pointer_collation name f) = create_pointer_collation api handle name f
  call_of (creates_static_collation name) = create_static_collation api handle name
  call_of (removes_function name argc) = remove_function api handle name argc
  call_of (removes_aggregate name argc) = remove_aggregate api handle name argc
  call_of (removes_collation name) = remove_collation api handle name

  unfoldable pub register : Registering C → Program C W → Outcome (Unit {0}) × Program C W
  register op s =
      let d = call_of op s.heap s.world in
      (
        d.result,
        record {
          heap = d.heap;
          copies = copy_at s.heap.next (copied op) s.copies;
          world = d.world;
        },
      )

  unfoldable pub register_all :
      List (Registering C) → Program C W → List (Outcome (Unit {0})) × Program C W
  register_all [] s = ([], s)
  register_all (op ∷ ops) s =
      let (r, s') = register op s in let (rs, s'') = register_all ops s' in (r ∷ rs, s'')
