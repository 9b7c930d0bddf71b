-- ===== src/Overloads/Callables.antt =====
-- callable/callable.hpp: the traits of callables, and what the templates that create SQL functions
-- make of a callable's type.
pub mod Creation
use mathlib.Core.Option
use sqxx.Base.{ℕ, ◌&&◌, Bool, true, false, Option, none, some, List, [], ◌∷◌, if◌then◌else◌}
use sqxx.Overloads.{CppType, other, null_pointer, is_sqxx_db_type, pack_count}

-- Ret (Args...)
pub record Signature : Type 0 where
  pub return_type : CppType
  pub arguments : List CppType

-- The type of `&Callable::operator()`, with or without const.
pub record Operator : Type 0 where
  pub is_const : Bool
  pub signature : Signature

-- The types of callables: `class_of` a class by its operator(), none if it has none or several, as a
-- template has.
pub data CallableType : Type 0 where
  function function_pointer std_function : Signature → CallableType
  reference_wrapper reference : CallableType → CallableType
  class_of : Option Operator → CallableType

-- callable_traits_fn
abbrev pub traits_fn : Signature → Signature
traits_fn s = s

-- callable_traits_memfnp
abbrev pub traits_memfnp : Operator → Signature
traits_memfnp m = traits_fn m.signature

-- decltype(&Callable::operator()); none is an error of the compiler, as in what follows.
abbrev pub call_operator : CallableType → Option Operator
call_operator (class_of m) = m
call_operator (std_function s) = some (record { is_const = true; signature = s })
call_operator _ = none

-- callable_traits_d
abbrev pub traits_d : CallableType → Option Signature
traits_d (reference_wrapper t) = Option.map traits_memfnp (call_operator t)
traits_d (function s) = some (traits_fn s)
traits_d (function_pointer s) = some (traits_fn s)
traits_d (std_function s) = some (traits_fn s)
traits_d t = Option.map traits_memfnp (call_operator t)

abbrev pub remove_reference : CallableType → CallableType
remove_reference (reference t) = t
remove_reference t = t

-- callable_traits
unfoldable pub callable_traits : CallableType → Option Signature
callable_traits t = traits_d (remove_reference t)

-- callable_traits_fn::argc
unfoldable pub argc : Signature → ℕ
argc s = pack_count s.arguments

-- std::decay_t, as far as callables are concerned
abbrev pub decay : CallableType → CallableType
decay (reference t) = decay t
decay (function s) = function_pointer s
decay t = t

-- std::remove_pointer_t
abbrev pub remove_pointer : CallableType → CallableType
remove_pointer (function_pointer s) = function s
remove_pointer t = t

abbrev is_function : CallableType → Bool
is_function (function s) = true
is_function _ = false

-- detail::decays_to_function_v
unfoldable pub decays_to_function : CallableType → Bool
decays_to_function t = is_function (remove_pointer (decay t))

-- to_stdfunction
unfoldable pub to_stdfunction : CallableType → Option CallableType
unfolding callable_traits
to_stdfunction t = Option.map (λ s. std_function s) (callable_traits t)

-- What is registered for a callable: its number of arguments, and whether sqlite3 is given a pointer to
-- the function itself, and not to a copy of the callable.
pub record Created : Type 0 where
  pub nargs : ℕ
  pub is_pointer : Bool

-- C++ decides whether a sqxx::value, with its conversion operators for the types of the database, can be
-- passed for a parameter. Of any other type, `takes` tells it: it depends on the constructors of that type.
abbrev pub converts : (ℕ → Bool) → CppType → Bool
converts takes (other n) = takes n
converts takes null_pointer = false
converts takes _ = true

unfoldable pub converts_all : (ℕ → Bool) → List CppType → Bool
converts_all takes [] = true
converts_all takes (t ∷ ts) = converts takes t && converts_all takes ts

module _ (takes : ℕ → Bool) where
  -- The function that sqlite3 will call has to compile: `result` takes the types of the database only, and
  -- apply_value_array passes a sqxx::value for each argument.
  abbrev creates_with : Bool → Option Signature → Option Created
  creates_with pointer none = none
  creates_with pointer (some s) =
      if is_sqxx_db_type s.return_type && converts_all takes s.arguments
      then some (record { nargs = argc s; is_pointer = pointer })
      else none

  -- create_function(name, callable), by the overload of create_function_dispatch that is enabled
  unfoldable pub create_function_type : CallableType → Option Created
  unfolding callable_traits decays_to_function
  create_function_type t =
      if decays_to_function t
      then creates_with true (callable_traits (remove_pointer (decay t)))
      else creates_with false (callable_traits (decay t))
