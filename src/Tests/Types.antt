-- ===== src/Tests/Types.antt =====
-- Types and callables, and the theorems at them.
use sqxx.Base.{◌≡◌, ◌↔◌, true, false, none, some, [], ◌∷◌}
use sqxx.Overloads.{int, c_string, std_string, by_pointer, is_enabled, is_sqxx_db_type}
use sqxx.Overloads.Selection.{overload_of, is_enabled-overload_of}
use sqxx.Overloads.Callables.{CallableType, Created, reference, reference_wrapper, class_of}

is_enabled-overload_of_example :
    ((is_enabled by_pointer c_string ≡ true) ↔ (some by_pointer ≡ some by_pointer))
    × ((is_sqxx_db_type c_string ≡ false) ↔ (some by_pointer ≡ none))
unfolding overload_of
is_enabled-overload_of_example = is_enabled-overload_of c_string by_pointer

-- A lambda of two arguments, by std::ref, passed as an lvalue.
abbrev lambda : CallableType
lambda = reference (
    reference_wrapper (
      class_of (
        some (record {
          is_const = true;
          signature = record { return_type = std_string; arguments = int ∷ c_string ∷ [] };
        }))))

abbrev of_two : Created
of_two = record { nargs = 2; is_pointer = false }
