-- ===== src/Tests/Functions.antt =====
-- Callables, an aggregate and a registry, and the theorems at them.
use sqxx.Base.{ℕ, suc, ◌+◌, ◌≡◌, ◌≢◌, refl, Bool, true, none, some, [], ◌∷◌, if◌then◌else◌, ltb}
use sqxx.Base.Int.{pos}
use sqxx.Effect.{bad_alloc, Outcome, returned, thrown}
use sqxx.Function.{Output, int, result_error_nomem, Callable, function_call, catch_error}
use sqxx.Function.Apply.{Called, function_call-Called}
use sqxx.Function.Aggregate.{
  Memory, absent, zeroed, unmade, destroyed, constructed, ContextApi, Aggregate, Run, step_call,
  final_call,
}
use sqxx.Function.Aggregate.Fold.{ContextLaws, final_call-copy_throws}

-- The first argument, and the number of calls.
abbrev first : Callable ℕ ℕ (Output ℕ)
first [] calls = (thrown bad_alloc, suc calls)
first (n ∷ args) calls = (returned (int (pos n)), suc calls)

function_call-Called_example :
    Called first (λ i. i + 5) 1 1 0 (function_call 1 first 1 (λ i. i + 5) 0)
function_call-Called_example = function_call-Called first (λ i. i + 5) 1 1 0

-- aggregate_context as long as there is memory.
abbrev pub context_of : ℕ → Memory ℕ → ℕ → Bool × Memory ℕ × ℕ
context_of n absent w = (ltb 0 n, if ltb 0 n then zeroed else absent, w)
context_of n zeroed w = (true, zeroed, w)
context_of n unmade w = (true, unmade, w)
context_of n destroyed w = (true, destroyed, w)
context_of n (constructed s) w = (true, constructed s, w)

abbrev pub contexts : ContextApi ℕ ℕ
contexts = record { aggregate_context = context_of }

context_of-found : (n : ℕ) (m : Memory ℕ) (w : ℕ) → m ≢ absent → context_of n m w ≡ (true, m, w)
context_of-found n absent w other = absurd (other refl)
context_of-found n zeroed w other = refl
context_of-found n unmade w other = refl
context_of-found n destroyed w other = refl
context_of-found n (constructed s) w other = refl

pub contexts-ContextLaws : ContextLaws contexts 16
contexts-ContextLaws = record { made = λ w. refl; none_yet = λ w. refl; found = context_of-found }

-- The sum of the first arguments; the user's state counts the steps.
abbrev add : Callable ℕ (ℕ × ℕ) (Unit {0})
add [] (s, u) = (thrown bad_alloc, (s, u))
add (n ∷ args) (s, u) = (returned tt, (s + n, suc u))

abbrev sum : (ℕ → ℕ → Outcome ℕ × ℕ) → Aggregate ℕ ℕ ℕ ℕ
sum copy = record {
  state_zero = 0;
  nargs = 1;
  size = 16;
  copy = copy;
  stepfun = add;
  finalfun = λ s u. (returned (int (pos s)), u);
}

abbrev summing : Aggregate ℕ ℕ ℕ ℕ
summing = sum (λ s u. (returned s, u))

abbrev uncopied : Aggregate ℕ ℕ ℕ ℕ
uncopied = sum (λ s u. (thrown bad_alloc, u))

abbrev at_row_one : Run ℕ ℕ ℕ
at_row_one = record { memory = absent; user = 0; world = 0 }

final_call-copy_throws_example :
    ((step_call contexts uncopied 1 (λ i. 5) at_row_one).0 ≡ some result_error_nomem)
    × ((final_call contexts uncopied (step_call contexts uncopied 1 (λ i. 5) at_row_one).1).0
        ≡ none)
unfolding catch_error
final_call-copy_throws_example =
    final_call-copy_throws contexts uncopied contexts-ContextLaws (λ i. 5) 0 0 0 bad_alloc refl
