-- ===== src/Function/Aggregate.antt =====
-- connection_create_aggregate.impl.hpp: a SQL aggregate from a start state, a step and a final function.
pub mod Fold
pub mod Group
pub mod Final
use sqxx.Base.{
  ℕ, suc, zero, String, Bool, true, false, Option, none, some, List, [], ◌∷◌, ◌==◌, if◌then◌else◌,
}
use sqxx.Effect.{bad_alloc, Outcome, returned, thrown}
use sqxx.Function.{
  Result, Output, Callable, catch_error, result_error_misuse, apply_value_array, finish_call,
}

-- The memory that sqlite3 keeps for one group: none, fresh and filled with zeros, holding an
-- invocation_data, what is left of one that was destroyed, or one with `initialized` already true whose `state`
-- was not made, as its copy threw. A zeroed one has `initialized` false.
pub data Memory (S : Type 0) : Type 0 where
  absent zeroed destroyed unmade : Memory S
  constructed : S → Memory S

-- sqlite3_aggregate_context(bytes): whether the pointer is not null, and the group's memory after it.
pub record ContextApi (S W : Type 0) : Type 0 where
  pub aggregate_context : ℕ → Memory S → W → Bool × Memory S × W

-- The C++ side: the copy constructor of the state, the step function, which changes the state also where
-- it throws, and the final function; `size` is that of invocation_data.
pub record Aggregate (A D S U : Type 0) : Type 0 where
  pub state_zero : S
  pub nargs : ℕ
  pub size : ℕ
  pub copy : S → U → Outcome S × U
  pub stepfun : Callable A (S × U) (Unit {0})
  pub finalfun : S → U → Outcome (Output D) × U

pub record Run (S U W : Type 0) : Type 0 where
  pub memory : Memory S
  pub user : U
  pub world : W

module _ {A D S U W : Type 0} (api : ContextApi S W) (agg : Aggregate A D S U) where
  -- new(as) invocation_data(state_zero)
  pub placed : Outcome S × U → W → Outcome S × Run S U W
  placed (returned s, u) w = (returned s, record { memory = constructed s; user = u; world = w })
  placed (thrown e, u) w = (thrown e, record { memory = unmade; user = u; world = w })

  -- get_state_create(): the state, or the exception. One that is destroyed or
  -- was not made is never asked for, as sqlite3 takes no row after an error or after the final call.
  pub initialize : Memory S → U → W → Outcome S × Run S U W
  unfolding placed
  initialize (constructed s) u w =
      (returned s, record { memory = constructed s; user = u; world = w })
  initialize _ u w = placed (agg.copy agg.state_zero u) w

  pub get_state_create : Run S U W → Outcome S × Run S U W
  unfolding initialize
  get_state_create r =
      let (found, memory, w) = api.aggregate_context agg.size r.memory r.world in
      if found
      then initialize memory r.user w
      else (thrown bad_alloc, record { memory = memory; user = r.user; world = w })

  pub after_stepfun : Outcome (Unit {0}) × (S × U) → W → Option (Result D) × Run S U W
  unfolding catch_error
  after_stepfun (returned _, (s, u)) w =
      (none, record { memory = constructed s; user = u; world = w })
  after_stepfun (thrown e, (s, u)) w =
      (some (catch_error e), record { memory = constructed s; user = u; world = w })

  -- The step function gets the state by reference, which is the base argument of apply_value_array.
  pub with_state : (ℕ → A) → Outcome S × Run S U W → Option (Result D) × Run S U W
  unfolding after_stepfun apply_value_array
  with_state argv (returned s, r) =
      after_stepfun (apply_value_array agg.nargs agg.stepfun argv [] (s, r.user)) r.world
  with_state argv (thrown e, r) = (some (catch_error e), r)

  -- aggregate_call_step: the error that it sets as result, if any.
  pub step_call : ℕ → (ℕ → A) → Run S U W → Option (Result D) × Run S U W
  unfolding get_state_create with_state
  step_call argc argv r =
      if argc == agg.nargs
      then with_state argv (get_state_create r)
      else (some result_error_misuse, r)

  -- The final function on the state that the memory holds; `none` is undefined behaviour, the reading
  -- and destroying of an object that was never constructed. The destructor runs on every path.
  finalize : Bool → Memory S → U → W → Option (Result D) × Run S U W
  unfolding finish_call
  finalize false memory u w =
      let (res, u') = finish_call (agg.finalfun agg.state_zero u) in
      (some res, record { memory = memory; user = u'; world = w })
  finalize true (constructed s) u w =
      let (res, u') = finish_call (agg.finalfun s u) in
      (some res, record { memory = destroyed; user = u'; world = w })
  finalize true _ u w = (none, record { memory = destroyed; user = u; world = w })

  -- aggregate_call_final
  pub final_call : Run S U W → Option (Result D) × Run S U W
  unfolding finalize
  final_call r =
      let (found, memory, w) = api.aggregate_context 0 r.memory r.world in
      finalize found memory r.user w
