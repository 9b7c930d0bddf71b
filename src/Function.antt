-- ===== src/Function.antt =====
-- connection_create_function.impl.hpp, connection_callbacks.impl.hpp and the results of context.cpp:
-- a C++ callable as a SQL function.
pub mod Apply
pub mod Aggregate
use sqxx.Base.{
  ℕ, zero, suc, ◌+◌, String, Bool, true, false, Option, none, some, List, [], ◌∷◌, ◌++◌, length,
  ◌==◌, if◌then◌else◌,
}
use sqxx.Base.Int.{ℤ}
use sqxx.Effect.{
  Code, sqlite_misuse, Exception, error, bad_alloc, std_exception, unknown, Outcome, returned,
  thrown,
}
use sqxx.Statement.{Bytes, Lifetime, transient, static}
use sqxx.Statement.Binding.{Blob, lifetime}

-- The calls of the sqlite3_result_… functions. `result_text` covers text64 with its length.
pub data Result (D : Type 0) : Type 0 where
  result_null result_error_nomem : Result D
  result_int result_int64 : ℤ → Result D
  result_double : D → Result D
  result_text : Bytes → ℕ → Lifetime → Result D
  result_blob : Bytes → ℕ → Lifetime → Result D
  result_zeroblob : ℕ → Result D
  result_error : String → Result D
  result_error_code : Code → Result D

-- The value of a callable, by its C++ type, and `context::result()` of it.
pub data Output (D : Type 0) : Type 0 where
  int int64 : ℤ → Output D
  double : D → Output D
  text : Option Bytes → Bool → Output D
  str : Bytes → Bool → Output D
  blob : Blob → Bool → Output D

unfoldable pub result : {D : Type 0} → Output D → Result D
result (int value) = result_int value
result (int64 value) = result_int64 value
result (double value) = result_double value
result (text none copy) = result_null
result (text (some bytes) copy) = result_text bytes (length bytes) (lifetime copy)
result (str bytes copy) = result_text bytes (length bytes) (lifetime copy)
result (blob b copy) = elim b.address [
  | none ↦ result_zeroblob b.size
  | some bytes ↦ result_blob bytes b.size (lifetime copy)
]

-- void context::result_error_misuse()
abbrev pub result_error_misuse : {D : Type 0} → Result D
result_error_misuse = result_error_code sqlite_misuse

-- The ladder of catch clauses: sqxx::error, std::bad_alloc, std::exception, anything.
unfoldable pub catch_error : {D : Type 0} → Exception → Result D
catch_error (error code what) = result_error_code code
catch_error bad_alloc = result_error_nomem
catch_error (std_exception what) = result_error what
catch_error (unknown n) = result_error_misuse

-- A C++ callable with its arguments as a list, which may touch the program's state and throw.
abbrev pub Callable : Type 0 → Type 0 → Type 0 → Type 0
Callable A U R = List A → U → Outcome R × U

-- apply_value_array_st: the arguments so far, then those from argv[i] on, of which `n` are left. `argv` is
-- read as an array is, also past its end.
apply_from : {A U R : Type 0} → ℕ → ℕ → Callable A U R → (ℕ → A) → List A → U → Outcome R × U
apply_from i zero f argv args = f args
apply_from i (suc n) f argv args = apply_from (i + 1) n f argv (args ++ (argv i ∷ []))

-- apply_value_array<N>(f, argv, baseargs…)
unfoldable pub apply_value_array :
    {A U R : Type 0} → ℕ → Callable A U R → (ℕ → A) → List A → U → Outcome R × U
unfolding apply_from
apply_value_array n f argv baseargs = apply_from 0 n f argv baseargs

unfoldable pub finish_call : {D U : Type 0} → Outcome (Output D) × U → Result D × U
unfolding result catch_error
finish_call (returned value, u) = (result value, u)
finish_call (thrown e, u) = (catch_error e, u)

-- function_call_ptr, and function_call_staticfptr: `argc` is the number of arguments that sqlite3 passes,
-- `n` that of the callable.
pub function_call : {A D U : Type 0} → ℕ → Callable A U (Output D) → ℕ → (ℕ → A) → U → Result D × U
unfolding apply_value_array finish_call
function_call n f argc argv u =
    if argc == n then finish_call (apply_value_array n f argv [] u) else (result_error_misuse, u)
