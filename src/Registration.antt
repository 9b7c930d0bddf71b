-- ===== src/Registration.antt =====
-- Registering SQL functions, aggregates and collations: `create_…_register` and `remove_…` of
-- connection.cpp, and the callers in connection_create_function.impl.hpp,
-- connection_create_aggregate.impl.hpp and connection_create_collation.impl.hpp, which make a copy of the
-- callable on the heap.
pub mod Ownership
pub mod Registry
use sqxx.Base.{ℕ, String, Option, none, some, if◌then◌else◌}
use sqxx.Effect.{Code, Outcome, returned, thrown, static_error, is_ok}
use sqxx.Statement.{Handle}
use sqxx.Heap.{Heap, new, delete}

-- A `destroy` argument, already applied to the data pointer: what it does to the heap. `none` is null.
abbrev pub Destroy : Type 0
Destroy = Option (Heap → Heap)

abbrev pub run_destroy : Destroy → Heap → Heap
run_destroy none h = h
run_destroy (some f) h = f h

-- The functions of sqlite3, which may call `destroy` and so change the heap. Whether it is a function, an
-- aggregate, a collation or none is in `kind`: the callbacks that are not null.
pub data Kind : Type 0 where
  scalar aggregate comparison nothing : Kind

pub record RegisterApi (W : Type 0) : Type 0 where
  pub errstr : Code → String
  pub create_function_v2 :
      Handle → String → ℕ → Kind → Option ℕ → Destroy → Heap → W → Code × Heap × W
  pub create_collation_v2 : Handle → String → Kind → Option ℕ → Destroy → Heap → W → Code × Heap × W

-- How a call ends, with the heap and the state of sqlite3.
pub record Done (W : Type 0) : Type 0 where
  pub result : Outcome (Unit {0})
  pub heap : Heap
  pub world : W

-- appdata_destroy_object<T>(data)
unfoldable pub appdata_destroy_object : ℕ → Heap → Heap
unfolding delete
appdata_destroy_object p h = delete (some p) h

module _ {W : Type 0} (api : RegisterApi W) where
  unfoldable pub checked : Code → Heap → W → Done W
  checked rv h w = record {
    result = if is_ok rv then returned tt else thrown (static_error api.errstr rv);
    heap = h;
    world = w;
  }

  -- create_function_register and create_aggregate_register
  unfoldable pub create_function_register :
      Handle → String → ℕ → Kind → Option ℕ → Destroy → Heap → W → Done W
  unfolding checked
  create_function_register handle name argc kind data_ptr destroy h w =
      let (rv, h', w') = api.create_function_v2 handle name argc kind data_ptr destroy h w in
      checked rv h' w'

  -- create_collation_register destroys the data itself where the call fails.
  unfoldable pub create_collation_register :
      Handle → String → Option ℕ → Destroy → Heap → W → Done W
  create_collation_register handle name data_ptr destroy h w =
      let (rv, h', w') = api.create_collation_v2 handle name comparison data_ptr destroy h w in
      if is_ok rv then record { result = returned tt; heap = h'; world = w' } else record {
        result = thrown (static_error api.errstr rv);
        heap = run_destroy destroy h';
        world = w';
      }

  -- create_function(name, callable): a copy of the callable is the data.
  unfoldable pub create_function : Handle → String → ℕ → Heap → W → Done W
  unfolding new create_function_register appdata_destroy_object
  create_function handle name argc h w =
      let (cptr, h') = new h in
      create_function_register handle name argc scalar (some cptr)
        (some (appdata_destroy_object cptr)) h' w

  -- create_function<Function, Fun>(name): nothing is stored.
  unfoldable pub create_static_function : Handle → String → ℕ → Heap → W → Done W
  unfolding create_function_register
  create_static_function handle name argc h w =
      create_function_register handle name argc scalar none none h w

  -- create_function(name, fun) for a function: its pointer is the data, and nothing is to be destroyed.
  unfoldable pub create_pointer_function : Handle → String → ℕ → ℕ → Heap → W → Done W
  unfolding create_function_register
  create_pointer_function handle name argc fptr h w =
      create_function_register handle name argc scalar (some fptr) none h w

  unfoldable pub create_aggregate : Handle → String → ℕ → Heap → W → Done W
  unfolding new create_function_register appdata_destroy_object
  create_aggregate handle name nargs h w =
      let (adat, h') = new h in
      create_function_register handle name nargs aggregate (some adat)
        (some (appdata_destroy_object adat)) h' w

  unfoldable pub create_collation : Handle → String → Heap → W → Done W
  unfolding new create_collation_register appdata_destroy_object
  create_collation handle name h w =
      let (cptr, h') = new h in
      create_collation_register handle name (some cptr) (some (appdata_destroy_object cptr)) h' w

  -- create_collation(name, fun) for a function
  unfoldable pub create_pointer_collation : Handle → String → ℕ → Heap → W → Done W
  unfolding create_collation_register
  create_pointer_collation handle name fptr h w =
      create_collation_register handle name (some fptr) none h w

  -- create_collation<Function, Fun>(name)
  unfoldable pub create_static_collation : Handle → String → Heap → W → Done W
  unfolding create_collation_register
  create_static_collation handle name h w = create_collation_register handle name none none h w

  unfoldable pub remove_function : Handle → String → ℕ → Heap → W → Done W
  unfolding create_function_register
  remove_function handle name argc h w =
      create_function_register handle name argc nothing none none h w

  -- Aggregates are functions for sqlite3.
  unfoldable pub remove_aggregate : Handle → String → ℕ → Heap → W → Done W
  unfolding remove_function
  remove_aggregate handle name argc h w = remove_function handle name argc h w

  unfoldable pub remove_collation : Handle → String → Heap → W → Done W
  unfolding checked
  remove_collation handle name h w =
      let (rv, h', w') = api.create_collation_v2 handle name nothing none none h w in
      checked rv h' w'
