-- ===== src/Function/Aggregate/Group.antt =====
-- connection_create_aggregate.impl.hpp, a whole group of rows: sqlite3 calls the step function for each row, up
-- to the first that sets an error, and then the final function, which also cleans up.
use mathlib.Core.Option
use sqxx.Base.{ℕ, ◌≡◌, ◌∙◌, ap, none, some, Option, List, [], ◌∷◌, false, ◌==◌}
use sqxx.Effect.{Exception, Outcome, returned, thrown}
use sqxx.Function.{Result, catch_error, finish_call, result_error_misuse}
use sqxx.Function.Apply.{items, apply_value_array_lem}
use sqxx.Function.Aggregate.{
  Memory, absent, destroyed, constructed, ContextApi, Aggregate, Run, step_call, final_call, placed,
  with_state, after_stepfun,
}
use sqxx.Function.Aggregate.Fold.{
  ContextLaws, left, step_matching, get_state_constructed, get_state_absent, final_constructed,
  final_absent,
}

-- The loop goes on after a row that sets no error.
abbrev stops : {E R : Type 0} → Option E → R → Option E × R → Option E × R
stops none r rest = rest
stops (some e) r rest = (some e, r)

abbrev chained : {R : Type 0} → Outcome (Unit {0}) → R → Option Exception × R → Option Exception × R
chained (returned _) x rest = rest
chained (thrown e) x rest = (some e, x)

module _ {A D S U W : Type 0} (api : ContextApi S W) (agg : Aggregate A D S U) where
  step_rows : ℕ → List (ℕ → A) → Run S U W → Option (Result D) × Run S U W
  step_rows argc [] r = (none, r)
  step_rows argc (argv ∷ rows) r =
      let (e, r') = step_call api agg argc argv r in stops e r' (step_rows argc rows r')

  -- The result of the group: an error of the rows, or that of the final function.
  conclude : Option (Result D) × Run S U W → Option (Result D) × Run S U W
  conclude (none, r) = final_call api agg r
  conclude (some e, r) = let (res, r') = final_call api agg r in (Option.map (λ _. e) res, r')

  unfoldable pub summarise : ℕ → List (ℕ → A) → Run S U W → Option (Result D) × Run S U W
  unfolding step_rows conclude
  summarise argc rows r = conclude (step_rows argc rows r)

module _ {A D S U : Type 0} (agg : Aggregate A D S U) where
  -- The fold of the step function over the rows, up to its first exception.
  unfoldable pub fold_rows : List (ℕ → A) → S × U → Option Exception × (S × U)
  fold_rows [] x = (none, x)
  fold_rows (argv ∷ rows) x =
      let (r, y) = agg.stepfun (items 0 agg.nargs argv) x in chained r y (fold_rows rows y)

  -- The final function gets the state in any case.
  unfoldable pub summary : Option Exception × (S × U) → Result D × U
  summary (none, (s, u)) = finish_call (agg.finalfun s u)
  summary (some e, (s, u)) = (catch_error e, (finish_call (agg.finalfun s u)).1)

-- What a group leaves in sqlite3.
abbrev pub settled :
    {D S U W : Type 0} → Memory S → W → Result D × U → Option (Result D) × Run S U W
settled memory w (res, u) = (some res, record { memory = memory; user = u; world = w })

module _ {A D S U W : Type 0} (api : ContextApi S W) (agg : Aggregate A D S U)
    (laws : ContextLaws api agg.size) where
  with_state_lem :
      (argv : ℕ → A) (s : S) (r : Run S U W)
      → with_state api agg argv (returned s, r)
        ≡ after_stepfun api agg (agg.stepfun (items 0 agg.nargs argv) (s, r.user)) r.world
  unfolding with_state
  with_state_lem argv s r = rw (apply_value_array_lem agg.stepfun argv agg.nargs [] (s, r.user))

  -- The final call on a state, after an exception of a row or none.
  conclude_lem :
      (s : S) (u : U) (w : W) (res : Option Exception)
      → conclude api agg (
        Option.map (λ e. catch_error e) res,
        record { memory = constructed s; user = u; world = w },
      )
        ≡ settled destroyed w (summary agg (res, (s, u)))
  unfolding conclude summary
  conclude_lem s u w none = final_constructed api agg laws s u w
  conclude_lem s u w (some e) = rw (final_constructed api agg laws s u w)

  -- What is left of a group after its step function gave `x`.
  rest_lem :
      (rows : List (ℕ → A)) (w : W) (x : Outcome (Unit {0}) × (S × U))
      → ((s : S) (u : U)
          → conclude api agg (
              step_rows api agg agg.nargs rows
                (record { memory = constructed s; user = u; world = w }))
            ≡ settled destroyed w (summary agg (fold_rows agg rows (s, u))))
      → let (e, r) = after_stepfun api agg x w in
        conclude api agg (stops e r (step_rows api agg agg.nargs rows r))
        ≡ settled destroyed w (summary agg (chained x.0 x.1 (fold_rows agg rows x.1)))
  unfolding after_stepfun
  rest_lem rows w (returned tt, (s, u)) ih = ih s u
  rest_lem rows w (thrown e, (s, u)) ih = conclude_lem s u w (some e)

  step_lem :
      (argv : ℕ → A) (s : S) (u : U) (w : W)
      → step_call api agg agg.nargs argv (record { memory = constructed s; user = u; world = w })
        ≡ after_stepfun api agg (agg.stepfun (items 0 agg.nargs argv) (s, u)) w
  step_lem argv s u w =
      step_matching api agg laws argv (record { memory = constructed s; user = u; world = w })
      ∙ ap (with_state api agg argv) (get_state_constructed api agg laws s u w)
      ∙ with_state_lem argv s (record { memory = constructed s; user = u; world = w })

  first_lem :
      (argv : ℕ → A) (u : U) (w : W)
      → agg.copy agg.state_zero u ≡ (returned agg.state_zero, u)
      → step_call api agg agg.nargs argv (record { memory = absent; user = u; world = w })
        ≡ after_stepfun api agg (agg.stepfun (items 0 agg.nargs argv) (agg.state_zero, u)) w
  unfolding placed
  first_lem argv u w c =
      step_matching api agg laws argv (record { memory = absent; user = u; world = w })
      ∙ ap (with_state api agg argv) (get_state_absent api agg laws u w _ c)
      ∙ with_state_lem argv agg.state_zero
          (record { memory = constructed agg.state_zero; user = u; world = w })

  rows_lem :
      (rows : List (ℕ → A)) (s : S) (u : U) (w : W)
      → conclude api agg (
          step_rows api agg agg.nargs rows (record { memory = constructed s; user = u; world = w }))
        ≡ settled destroyed w (summary agg (fold_rows agg rows (s, u)))
  unfolding step_rows fold_rows
  rows_lem [] s u w = conclude_lem s u w none
  rows_lem (argv ∷ rows) s u w =
      rw (step_lem argv s u w)
        (rest_lem rows w (agg.stepfun (items 0 agg.nargs argv) (s, u)) (λ t v. rows_lem rows t v w))

  -- While sqlite3 has memory for the group and the copy of the start state is that state: over any rows,
  -- the aggregate gives the result of the final function on the fold of the step function over the
  -- rows from the start state, or the error that belongs to the first exception of the step
  -- function, after which no row is taken; and the state in sqlite3's memory is destroyed in either
  -- case, if one was made.
  pub summarise_lem :
      (rows : List (ℕ → A)) (u : U) (w : W)
      → agg.copy agg.state_zero u ≡ (returned agg.state_zero, u)
      → summarise api agg agg.nargs rows (record { memory = absent; user = u; world = w })
        ≡ settled (left api agg rows) w (summary agg (fold_rows agg rows (agg.state_zero, u)))
  unfolding summarise step_rows conclude fold_rows summary
  summarise_lem [] u w c = final_absent api agg laws u w
  summarise_lem (argv ∷ rows) u w c = rw (first_lem argv u w c) (
      rest_lem rows w (agg.stepfun (items 0 agg.nargs argv) (agg.state_zero, u))
        (λ t v. rows_lem rows t v w))

  -- Another number of arguments than that of the step function.
  pub summarise_misuse :
      (argc : ℕ) (argv : ℕ → A) (rows : List (ℕ → A)) (u : U) (w : W)
      → (argc == agg.nargs) ≡ false
      → summarise api agg argc (argv ∷ rows) (record { memory = absent; user = u; world = w })
        ≡ settled absent w (result_error_misuse, (summary agg (none, (agg.state_zero, u))).1)
  unfolding summarise step_rows conclude step_call summary
  summarise_misuse argc argv rows u w e = rw (e, final_absent api agg laws u w)

  pub summarise-none :
      (argc : ℕ) (u : U) (w : W)
      → summarise api agg argc [] (record { memory = absent; user = u; world = w })
        ≡ settled absent w (summary agg (none, (agg.state_zero, u)))
  unfolding summarise step_rows conclude summary
  summarise-none argc u w = final_absent api agg laws u w
