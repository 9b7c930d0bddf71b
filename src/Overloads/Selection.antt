-- ===== src/Overloads/Selection.antt =====
-- Which overload a call of bind() gets, and what the traits of a callable tell.
use sqxx.Base.{
  Bool, ℕ, zero, suc, ◌≡◌, ◌↔◌, refl, true, false, Option, none, some, List, [], ◌∷◌, length,
  get_elem?, arith,
}
use sqxx.Overloads.{
  CppType, int, int64, double, c_string, std_string, blob, null_pointer, other, is_same,
  is_sqxx_db_type, Overload, by_number, by_pointer, by_reference, is_enabled, pack_count, pack_n,
  argument_type,
}

-- The overload for a type, if there is one.
unfoldable pub overload_of : CppType → Option Overload
overload_of int = some by_number
overload_of int64 = some by_number
overload_of double = some by_number
overload_of c_string = some by_pointer
overload_of std_string = some by_reference
overload_of blob = some by_reference
overload_of null_pointer = none
overload_of (other n) = none

-- Whether that is the overload.
abbrev finds : Option Overload → Overload → Bool
finds (some by_number) by_number = true
finds (some by_pointer) by_pointer = true
finds (some by_reference) by_reference = true
finds _ _ = false

finds_lem : (found : Option Overload) (o : Overload) → (finds found o ≡ true) ↔ (found ≡ some o)
finds_lem (some by_number) by_number = (λ e. refl, λ e. refl)
finds_lem (some by_pointer) by_pointer = (λ e. refl, λ e. refl)
finds_lem (some by_reference) by_reference = (λ e. refl, λ e. refl)
finds_lem _ _ = (λ e. cc, λ e. cc)

on_each :
    (f g : Overload → Bool)
    → f by_number ≡ g by_number
    → f by_pointer ≡ g by_pointer
    → f by_reference ≡ g by_reference
    → (o : Overload) → f o ≡ g o
on_each f g n p r by_number = n
on_each f g n p r by_pointer = p
on_each f g n p r by_reference = r

is_enabled-finds : (t : CppType) (o : Overload) → is_enabled o t ≡ finds (overload_of t) o
unfolding is_enabled overload_of is_same
is_enabled-finds int = on_each _ _ refl refl refl
is_enabled-finds int64 = on_each _ _ refl refl refl
is_enabled-finds double = on_each _ _ refl refl refl
is_enabled-finds c_string = on_each _ _ refl refl refl
is_enabled-finds std_string = on_each _ _ refl refl refl
is_enabled-finds blob = on_each _ _ refl refl refl
is_enabled-finds null_pointer = on_each _ _ refl refl refl
is_enabled-finds (other n) = on_each _ _ refl refl refl

db_type-none : (t : CppType) → (is_sqxx_db_type t ≡ false) ↔ (overload_of t ≡ none)
unfolding is_sqxx_db_type overload_of is_same
db_type-none (other n) = (λ e. refl, λ e. refl)
db_type-none _ = (λ e. cc, λ e. cc)

-- Of the templates bind(idx, value), std::enable_if leaves one for a value of a type that the library can
-- store, and none for any other type, std::nullptr_t among them: such a call does not compile, but it is never
-- ambiguous between these templates.
pub is_enabled-overload_of :
    (t : CppType) (o : Overload)
    → ((is_enabled o t ≡ true) ↔ (overload_of t ≡ some o))
      × ((is_sqxx_db_type t ≡ false) ↔ (overload_of t ≡ none))
is_enabled-overload_of t o =
    (rw (is_enabled-finds t o) (finds_lem (overload_of t) o), db_type-none t)

-- The traits of a callable with these arguments: their number, and for the type of the N-th of them, which
-- the library uses nowhere, none, since parameter_pack_traits does not pass its types on, while pack_n would
-- find it in them.
pub argument_type_lem :
    (n : ℕ) (types : List CppType)
    → (pack_count types ≡ length types)
      × (pack_n n types ≡ get_elem? types n)
      × (argument_type n types ≡ none)
unfolding pack_count pack_n argument_type
argument_type_lem n [] = (refl, refl, refl)
argument_type_lem zero (t ∷ ts) =
    let (count, _, _) = argument_type_lem 0 ts in (omega (arith, count), refl, refl)
argument_type_lem (suc n) (t ∷ ts) =
    let (count, found, _) = argument_type_lem n ts in (omega (arith, count), found, refl)
