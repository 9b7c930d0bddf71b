-- ===== src/Function/Aggregate/Final.antt =====
-- connection_create_aggregate.impl.hpp, the overload of `create_aggregate` without a final function.
use sqxx.Base.{ℕ, ◌≡◌, refl, ◌∙◌, ap, none, some, Option, List}
use sqxx.Effect.{Exception, Outcome, returned, thrown}
use sqxx.Function.{Result, Output, Callable, result, catch_error, finish_call}
use sqxx.Function.Aggregate.{absent, ContextApi, Aggregate}
use sqxx.Function.Aggregate.Fold.{ContextLaws, left}
use sqxx.Function.Aggregate.Group.{summarise, fold_rows, summary, settled, summarise_lem}

-- The conversion of a value to the type that `context::result` takes.
abbrev handed : {D S U : Type 0} → (S → Output D) → Outcome S × U → Outcome (Output D) × U
handed output (returned s, u) = (returned (output s), u)
handed output (thrown e, u) = (thrown e, u)

-- [](const State &state) -> State { return state; }, which makes a copy; `output` is the overload of
-- `context::result` for the type.
unfoldable pub default_final :
    {D S U : Type 0} → (S → U → Outcome S × U) → (S → Output D) → S → U → Outcome (Output D) × U
default_final copy output state u = handed output (copy state u)

-- create_aggregate(name, zero, step_fun)
abbrev pub with_default_final :
    {A D S U : Type 0}
    → (S → U → Outcome S × U)
    → (S → Output D)
    → S
    → ℕ
    → ℕ
    → Callable A (S × U) (Unit {0})
    → Aggregate A D S U
with_default_final copy output zero nargs size stepfun = record {
  state_zero = zero;
  nargs = nargs;
  size = size;
  copy = copy;
  stepfun = stepfun;
  finalfun = default_final copy output;
}

-- What the fold ended in.
abbrev pub folded : {D S U : Type 0} → (S → Output D) → Option Exception × (S × U) → Result D × U
folded output (none, (s, u)) = (result (output s), u)
folded output (some e, (s, u)) = (catch_error e, u)

module _ {A D S U W : Type 0} (copy : S → U → Outcome S × U) (output : S → Output D) (zero : S)
    (nargs size : ℕ) (stepfun : Callable A (S × U) (Unit {0})) (api : ContextApi S W)
    (laws : ContextLaws api size) where
  abbrev agg : Aggregate A D S U
  agg = with_default_final copy output zero nargs size stepfun

  summary_lem :
      (x : Option Exception × (S × U))
      → ((s : S) (u : U) → copy s u ≡ (returned s, u))
      → summary agg x ≡ folded output x
  unfolding summary default_final finish_call
  summary_lem (none, (s, u)) c = rw (c s u) refl
  summary_lem (some e, (s, u)) c = rw (c s u) refl

  -- While sqlite3 has memory for the group, and a copy of a state is that state: an aggregate that is
  -- created without a final function gives the fold of its step function over the rows, as the
  -- value of its type, or the error that belongs to the first exception of the step function.
  pub summarise-default_final :
      (rows : List (ℕ → A)) (u : U) (w : W)
      → ((s : S) (v : U) → copy s v ≡ (returned s, v))
      → summarise api agg nargs rows (record { memory = absent; user = u; world = w })
        ≡ settled (left api agg rows) w (folded output (fold_rows agg rows (zero, u)))
  summarise-default_final rows u w c =
      summarise_lem api agg laws rows u w (c zero u)
      ∙ ap (settled (left api agg rows) w) (summary_lem (fold_rows agg rows (zero, u)) c)
