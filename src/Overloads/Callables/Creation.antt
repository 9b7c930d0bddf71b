-- ===== src/Overloads/Callables/Creation.antt =====
-- The number of arguments that a SQL function is registered with, against how C++ calls the callable.
use mathlib.Core.Option
use sqxx.Base.{ℕ, List, [], ◌∷◌, ◌≡◌, Bool, true, false, Option, none, some, length}
use sqxx.Overloads.{CppType, is_sqxx_db_type}
use sqxx.Overloads.Callables.{
  converts, Signature, Operator, CallableType, function, function_pointer, std_function,
  reference_wrapper, reference, class_of, callable_traits, to_stdfunction, Created,
}

-- What C++ says of a call of such an object, where one signature fits: `f(args…)` of a reference or a
-- wrapper calls what it refers to.
pub data Calls : CallableType → Signature → Type 0 where
  a_function : {s : Signature} → Calls (function s) s
  a_pointer : {s : Signature} → Calls (function_pointer s) s
  a_std_function : {s : Signature} → Calls (std_function s) s
  an_object : {m : Operator} → Calls (class_of (some m)) m.signature
  a_wrapper : {t : CallableType} {s : Signature} → Calls t s → Calls (reference_wrapper t) s
  a_reference : {t : CallableType} {s : Signature} → Calls t s → Calls (reference t) s

-- No std::reference_wrapper to something without an operator() of its own, such as a function.
abbrev pub IsVisible : CallableType → Type 0
IsVisible (reference t) = IsVisible t
IsVisible (reference_wrapper (class_of m)) = Unit {0}
IsVisible (reference_wrapper (std_function s)) = Unit {0}
IsVisible (reference_wrapper t) = ⊥
IsVisible t = Unit {0}

abbrev pub refers_to_function : CallableType → Bool
refers_to_function (reference t) = refers_to_function t
refers_to_function (function s) = true
refers_to_function (function_pointer s) = true
refers_to_function t = false

module _ (takes : ℕ → Bool) where
  -- A sqxx::value can be passed for each of the parameters.
  abbrev pub TakesValues : List CppType → Type 0
  TakesValues [] = Unit {0}
  TakesValues (t ∷ ts) = (converts takes t ≡ true) × TakesValues ts

  -- The result can be given to sqlite3, and the parameters can be made of what sqlite3 has.
  abbrev pub Compiles : Signature → Type 0
  Compiles s = (is_sqxx_db_type s.return_type ≡ true) × TakesValues s.arguments

  -- What a callable is registered as is the way that C++ calls it.
  abbrev pub Registered : CallableType → Created → Type 0
  Registered t c =
      (s : Signature) × Calls t s
      × Compiles s
      × (c ≡ record { nargs = length s.arguments; is_pointer = refers_to_function t })

-- A conversion to std::function keeps the signature.
pub callable_traits-to_stdfunction :
    (t f : CallableType) → to_stdfunction t ≡ some f → callable_traits f ≡ callable_traits t
unfolding to_stdfunction callable_traits
callable_traits-to_stdfunction t f = go (callable_traits t)
  where
    go :
        (o : Option Signature) → Option.map (λ s. std_function s) o ≡ some f → callable_traits f ≡ o
    go none e = absurd (cc)
    go (some s) e = cc
