-- ===== src/Overloads.antt =====
-- datatypes.hpp and callable/: what the templates compute on types, and the overloads of bind() in
-- statement.hpp that std::enable_if selects between.
pub mod Selection
pub mod Callables
use sqxx.Base.{ℕ, zero, suc, ◌+◌, Bool, true, false, ◌||◌, ◌==◌, Option, none, some, List, [], ◌∷◌}

-- The C++ types that the templates tell apart, and std::nullptr_t, which they do not name; `other` is any that the library does not name.
pub data CppType : Type 0 where
  int int64 double c_string std_string blob null_pointer : CppType
  other : ℕ → CppType

-- std::is_same
is_same : CppType → CppType → Bool
is_same int int = true
is_same int64 int64 = true
is_same double double = true
is_same c_string c_string = true
is_same std_string std_string = true
is_same blob blob = true
is_same null_pointer null_pointer = true
is_same (other a) (other b) = a == b
is_same _ _ = false

-- detail::is_selected
pub is_selected : CppType → List CppType → Bool
unfolding is_same
is_selected t [] = false
is_selected t (t2 ∷ ts) = is_same t t2 || is_selected t ts

-- if_sqxx_db_type
pub is_sqxx_db_type : CppType → Bool
unfolding is_selected
is_sqxx_db_type t = is_selected t (int ∷ int64 ∷ double ∷ c_string ∷ std_string ∷ blob ∷ [])

-- The three templates bind(int idx, …), by what if_selected_type allows.
pub data Overload : Type 0 where
  by_number by_pointer by_reference : Overload

pub is_enabled : Overload → CppType → Bool
unfolding is_selected
is_enabled by_number t = is_selected t (int ∷ int64 ∷ double ∷ [])
is_enabled by_pointer t = is_selected t (c_string ∷ [])
is_enabled by_reference t = is_selected t (std_string ∷ blob ∷ [])

-- pack_count
pub pack_count : List CppType → ℕ
pack_count [] = 0
pack_count (t ∷ ts) = pack_count ts + 1

-- pack_n; none where there is no definition, which is an error of the compiler.
pub pack_n : ℕ → List CppType → Option CppType
pack_n n [] = none
pack_n zero (t ∷ ts) = some t
pack_n (suc n) (t ∷ ts) = pack_n n ts

-- parameter_pack_traits<Types…>::type<N>, which is pack_n<N>::type
pub argument_type : ℕ → List CppType → Option CppType
unfolding pack_n
argument_type n types = pack_n n []
