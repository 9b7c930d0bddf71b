-- ===== src/Tests/Groups.antt =====
-- An aggregate over groups of rows, and the theorems at it.
use sqxx.Base.{ℕ, suc, ◌+◌, ◌≡◌, refl, some, [], ◌∷◌, if◌then◌else◌, ltb}
use sqxx.Base.Int.{pos}
use sqxx.Effect.{bad_alloc, Outcome, returned, thrown}
use sqxx.Function.{int, result, result_int, result_error_nomem, Callable, catch_error, finish_call}
use sqxx.Function.Aggregate.{absent, destroyed, Aggregate, Run}
use sqxx.Function.Aggregate.Group.{summarise, fold_rows, summary, summarise_lem}
use sqxx.Function.Aggregate.Final.{default_final, with_default_final, summarise-default_final}
use sqxx.Tests.Functions.{contexts, contexts-ContextLaws}

-- It adds its arguments to the state and counts the rows, and throws on those from 100 on.
abbrev add : Callable ℕ (ℕ × ℕ) (Unit {0})
add [] x = (thrown bad_alloc, x)
add (n ∷ args) (s, u) = (if ltb n 100 then returned tt else thrown bad_alloc, (s + n, suc u))

abbrev copy : ℕ → ℕ → Outcome ℕ × ℕ
copy s u = (returned s, u)

abbrev total : Aggregate ℕ ℕ ℕ ℕ
total = with_default_final copy (λ s. int (pos s)) 10 1 16 add

abbrev begun : Run ℕ ℕ ℕ
begun = record { memory = absent; user = 0; world = 0 }

abbrev ended : ℕ → Run ℕ ℕ ℕ
ended rows = record { memory = destroyed; user = rows; world = 0 }

-- The second row throws, and the third is not taken.
summarise_lem_example :
    summarise contexts total 1 ((λ i. 11) ∷ (λ i. 200) ∷ (λ i. 22) ∷ []) begun
    ≡ (some result_error_nomem, ended 2)
unfolding fold_rows summary catch_error default_final finish_call
summarise_lem_example =
    summarise_lem contexts total contexts-ContextLaws ((λ i. 11) ∷ (λ i. 200) ∷ (λ i. 22) ∷ []) 0 0
      refl

summarise-default_final_example :
    summarise contexts total 1 ((λ i. 11) ∷ (λ i. 22) ∷ []) begun
    ≡ (some (result_int (pos 43)), ended 2)
unfolding fold_rows result
summarise-default_final_example =
    summarise-default_final copy (λ s. int (pos s)) 10 1 16 add contexts contexts-ContextLaws
      ((λ i. 11) ∷ (λ i. 22) ∷ []) 0 0 (λ s v. refl)
