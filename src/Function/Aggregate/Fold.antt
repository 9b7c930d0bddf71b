-- ===== src/Function/Aggregate/Fold.antt =====
-- An aggregate computes the fold of its step function over the rows of the group.
use sqxx.Base.{ℕ, ◌≡◌, ◌≢◌, refl, true, false, none, some, List, [], ◌∷◌, ==_iff}
use sqxx.Effect.{Exception, Outcome, returned, thrown}
use sqxx.Function.{catch_error, finish_call}
use sqxx.Function.Apply.{items, apply_value_array_lem}
use sqxx.Function.Aggregate.{
  Memory, absent, zeroed, unmade, destroyed, constructed, ContextApi, Aggregate, Run, step_call,
  final_call, get_state_create, initialize, placed, with_state,
}

-- What sqlite3 documents of sqlite3_aggregate_context, as long as there is memory: the first call with a
-- size makes the memory, filled with zeros, and later calls find it again; a call for 0 bytes makes none.
pub record ContextLaws {S W : Type 0} (api : ContextApi S W) (size : ℕ) : Type 0 where
  pub made : (w : W) → api.aggregate_context size absent w ≡ (true, zeroed, w)
  pub none_yet : (w : W) → api.aggregate_context 0 absent w ≡ (false, absent, w)
  pub found :
      (n : ℕ) (m : Memory S) (w : W) → m ≢ absent → api.aggregate_context n m w ≡ (true, m, w)

module _ {A D S U W : Type 0} (api : ContextApi S W) (agg : Aggregate A D S U) where
  -- sqlite3 calls the step function for each row of a group, and the final function after the last.
  unfoldable pub steps : List (ℕ → A) → Run S U W → Run S U W
  steps [] r = r
  steps (argv ∷ rows) r = steps rows (step_call api agg agg.nargs argv r).1

  -- The step function takes these rows one after another, with no exception.
  pub data Folds : List (ℕ → A) → S × U → S × U → Type 0 where
    no_row : {x : S × U} → Folds [] x x
    one_row :
        {argv : ℕ → A} {rows : List (ℕ → A)} {x y z : S × U}
        → agg.stepfun (items 0 agg.nargs argv) x ≡ (returned tt, y)
        → Folds rows y z
        → Folds (argv ∷ rows) x z

  abbrev pub left : List (ℕ → A) → Memory S
  left [] = absent
  left (argv ∷ rows) = destroyed

module _ {A D S U W : Type 0} (api : ContextApi S W) (agg : Aggregate A D S U)
    (laws : ContextLaws api agg.size) where
  pub step_matching :
      (argv : ℕ → A) (r : Run S U W)
      → step_call api agg agg.nargs argv r ≡ with_state api agg argv (get_state_create api agg r)
  unfolding step_call
  step_matching argv r = rw ((==_iff agg.nargs agg.nargs).1 refl)

  with_state_returned :
      (argv : ℕ → A) (s : S) (r : Run S U W) (y : S × U)
      → agg.stepfun (items 0 agg.nargs argv) (s, r.user) ≡ (returned tt, y)
      → with_state api agg argv (returned s, r)
        ≡ (none, record { memory = constructed y.0; user = y.1; world = r.world })
  unfolding with_state
  with_state_returned argv s r y e =
      rw (apply_value_array_lem agg.stepfun argv agg.nargs [] (s, r.user), e)

  pub get_state_constructed :
      (s : S) (u : U) (w : W)
      → get_state_create api agg (record { memory = constructed s; user = u; world = w })
        ≡ (returned s, record { memory = constructed s; user = u; world = w })
  unfolding get_state_create
  get_state_constructed s u w = rw (laws.found agg.size (constructed s) w (λ e. cc))

  pub get_state_absent :
      (u : U) (w : W) (r : Outcome S × U)
      → agg.copy agg.state_zero u ≡ r
      → get_state_create api agg (record { memory = absent; user = u; world = w })
        ≡ placed api agg r w
  unfolding get_state_create initialize
  get_state_absent u w r e = rw (laws.made w, e)

  steps_constructed :
      (rows : List (ℕ → A)) (s : S) (u : U) (w : W) (y : S × U)
      → Folds api agg rows (s, u) y
      → steps api agg rows (record { memory = constructed s; user = u; world = w })
        ≡ record { memory = constructed y.0; user = y.1; world = w }
  unfolding steps
  steps_constructed [] s u w y no_row = refl
  steps_constructed (argv ∷ rows) s u w z (one_row {y = y} e f) =
      rw
        (
          step_matching argv (record { memory = constructed s; user = u; world = w }),
          get_state_constructed s u w,
          with_state_returned argv s (record { memory = constructed s; user = u; world = w }) y e,
        )
        (steps_constructed rows y.0 y.1 w z f)

  pub final_constructed :
      (s : S) (u : U) (w : W)
      → final_call api agg (record { memory = constructed s; user = u; world = w }) ≡ (
        some (finish_call (agg.finalfun s u)).0,
        record { memory = destroyed; user = (finish_call (agg.finalfun s u)).1; world = w },
      )
  unfolding final_call
  final_constructed s u w = rw (laws.found 0 (constructed s) w (λ e. cc))

  pub final_absent :
      (u : U) (w : W)
      → final_call api agg (record { memory = absent; user = u; world = w }) ≡ (
        some (finish_call (agg.finalfun agg.state_zero u)).0,
        record {
          memory = absent;
          user = (finish_call (agg.finalfun agg.state_zero u)).1;
          world = w;
        },
      )
  unfolding final_call
  final_absent u w = rw (laws.none_yet w)

  final_unmade :
      (u : U) (w : W)
      → (final_call api agg (record { memory = unmade; user = u; world = w })).0 ≡ none
  unfolding final_call
  final_unmade u w = rw (laws.found 0 unmade w (λ e. cc))

  -- While sqlite3 has memory for the group and the copy of the start state is that state: over rows
  -- on each of which the step function returns, the aggregate gives the result of the final function
  -- on the state that the rows lead to from the start state, or on the start state itself for no
  -- rows; the state in sqlite3's memory is then destroyed, if one was made.
  pub final_call-steps :
      (rows : List (ℕ → A)) (u : U) (w : W) (s : S) (v : U)
      → agg.copy agg.state_zero u ≡ (returned agg.state_zero, u)
      → Folds api agg rows (agg.state_zero, u) (s, v)
      → final_call api agg (steps api agg rows (record { memory = absent; user = u; world = w }))
        ≡ (
          some (finish_call (agg.finalfun s v)).0,
          record {
            memory = left api agg rows;
            user = (finish_call (agg.finalfun s v)).1;
            world = w;
          },
        )
  unfolding steps placed
  final_call-steps [] u w s v c no_row = rw (final_absent u w)
  final_call-steps (argv ∷ rows) u w s v c (one_row {y = y} e f) =
      rw
        (
          step_matching argv (record { memory = absent; user = u; world = w }),
          get_state_absent u w _ c,
          with_state_returned argv agg.state_zero
              (record { memory = constructed agg.state_zero; user = u; world = w }) y e,
          steps_constructed rows y.0 y.1 w (s, v) f,
        )
        (final_constructed s v w)

  -- While sqlite3 has memory for the group: where the copy of the start state throws at the first
  -- row, sqlite3 gets the error that belongs to the exception, and the final call then takes the
  -- memory for a state, and reads and destroys one that was never made.
  pub final_call-copy_throws :
      (argv : ℕ → A) (u u' : U) (w : W) (e : Exception)
      → agg.copy agg.state_zero u ≡ (thrown e, u')
      → let r =
          step_call api agg agg.nargs argv (record { memory = absent; user = u; world = w }) in
        (r.0 ≡ some (catch_error e)) × ((final_call api agg r.1).0 ≡ none)
  unfolding with_state placed
  final_call-copy_throws argv u u' w e c =
      rw
        (
          step_matching argv (record { memory = absent; user = u; world = w }),
          get_state_absent u w _ c,
        )
        (refl, final_unmade u' w)
