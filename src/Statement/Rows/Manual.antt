-- ===== src/Statement/Rows/Manual.antt =====
-- examples/usage.cpp, the iteration by hand: a `while` loop over `done()` and `next_row()`.
use mathlib.Core.Option
use sqxx.Base.{
  ℕ, zero, suc, ◌+◌, ◌≡◌, refl, Bool, true, false, not, Option, none, some, List, [], ◌∷◌, map,
  if◌then◌else◌,
}
use sqxx.Effect.{Outcome, returned, thrown, Exec, Obj, ◌>>=◌, ◌>>◌, pure, gets, continue}
use sqxx.Statement.{Statement, StmtApi, done, step, next_row}
use sqxx.Statement.Rows.{RowIterator, begin, loop, for_each, advance, check_complete}

module _ {W D V : Type 0} (api : StmtApi W D) (body : Exec (Obj Statement W) V) where
  -- `while (!s.done()) { out.push_back(body()); s.next_row(); }` with at most `fuel` tests
  unfoldable pub walk : ℕ → Exec (Obj Statement W) (Option (List V))
  walk zero = pure none
  walk (suc fuel) = do
    completed ← gets done
    if completed
        then pure (some [])
        else do v ← body; next_row api; rest ← walk fuel; pure (Option.map (λ out. v ∷ out) rest)

  -- The rows of a loop without their numbers.
  abbrev pub unnumbered :
      Outcome (Option (List (ℕ × V))) × Obj Statement W
      → Outcome (Option (List V)) × Obj Statement W
  unnumbered (returned out, o) = (returned (Option.map (map (λ x. x.1)) out), o)
  unnumbered (thrown e, o) = (thrown e, o)

  -- One round, the row read, and what the rest of the loop gives.
  prepend_lem :
      (i : ℕ) (v : V) (x : Outcome (Option (List (ℕ × V))) × Obj Statement W)
      → continue (unnumbered x).0 (λ rest. pure (Option.map (λ out. v ∷ out) rest)) (unnumbered x).1
        ≡ unnumbered (continue x.0 (λ rest. pure (Option.map (λ out. (i, v) ∷ out) rest)) x.1)
  prepend_lem i v (returned none, o) = refl
  prepend_lem i v (returned (some out), o) = refl
  prepend_lem i v (thrown e, o) = refl

  attached_lem :
      (i : ℕ) (b : Bool)
      → ◌≡◌ {A = RowIterator}
          (record {
            attached = (check_complete b (record { attached = true; rowidx = i })).attached;
            rowidx = i + 1;
          })
          (record { attached = not b; rowidx = i + 1 })
  unfolding check_complete
  attached_lem i true = refl
  attached_lem i false = refl

  -- What follows the body and the step, on both sides.
  rest_lem :
      (fuel i : ℕ) (v : V) (x : Outcome (Unit {0}) × Obj Statement W)
      → ((o : Obj Statement W)
          → walk fuel o
            ≡ unnumbered (
                loop api
                  (λ _. body)
                  fuel
                  (record { attached = not o.self.completed; rowidx = i + 1 })
                  o))
      → continue x.0 (λ _. walk fuel >>= λ rest. pure (Option.map (λ out. v ∷ out) rest)) x.1
        ≡ unnumbered (
            (continue {B = RowIterator} x.0 (λ _ o. (
              returned (record {
                attached =
                    (check_complete o.self.completed
                      (record { attached = true; rowidx = i })).attached;
                rowidx = i + 1;
              }),
              o,
            ))
                >>= λ next. loop api (λ _. body) fuel next >>= λ rest.
                    pure (Option.map (λ out. (i, v) ∷ out) rest))
              x.1)
  rest_lem fuel i v (thrown e, o) ih = refl
  rest_lem fuel i v (returned tt, o) ih =
      rw (attached_lem i o.self.completed, ih o) (prepend_lem i v _)

  round_lem :
      (fuel i : ℕ) (x : Outcome V × Obj Statement W)
      → ((o : Obj Statement W)
          → walk fuel o
            ≡ unnumbered (
                loop api
                  (λ _. body)
                  fuel
                  (record { attached = not o.self.completed; rowidx = i + 1 })
                  o))
      → continue x.0
          (λ v. next_row api >> (walk fuel >>= λ rest. pure (Option.map (λ out. v ∷ out) rest)))
          x.1
        ≡ unnumbered (
            continue x.0
              (λ v. advance api (record { attached = true; rowidx = i }) >>= λ next.
                loop api (λ _. body) fuel next >>= λ rest.
                pure (Option.map (λ out. (i, v) ∷ out) rest))
              x.1)
  unfolding advance next_row
  round_lem fuel i (thrown e, o) ih = refl
  round_lem fuel i (returned v, o) ih = rest_lem fuel i v (step api o) ih

  loop_lem :
      (fuel i : ℕ) (b : Bool) (s : Statement) (w : W)
      → let o : Obj Statement W = record { self = record s { completed = b }; world = w } in
        walk fuel o
        ≡ unnumbered (loop api (λ _. body) fuel (record { attached = not b; rowidx = i }) o)
  unfolding walk loop
  loop_lem zero i b s w = refl
  loop_lem (suc fuel) i true s w = refl
  loop_lem (suc fuel) i false s w =
      round_lem fuel i (body (record { self = record s { completed = false }; world = w }))
        (λ o. loop_lem fuel (i + 1) o.self.completed o.self o.world)

  begin_lem :
      (b : Bool)
      → check_complete b (record { attached = true; rowidx = 0 })
        ≡ record { attached = not b; rowidx = 0 }
  unfolding check_complete
  begin_lem true = refl
  begin_lem false = refl

  -- On any statement and any sqlite3, and with any body that does not use the number of the row: a `while` loop
  -- over `done()` and `next_row()` does what the range-based `for` does. The body runs for the same
  -- rows in the same order, the loop ends with the same exception if the body or a step throws, and
  -- leaves the same statement and state; only the numbers of the rows are not there.
  pub walk-for_each :
      (fuel : ℕ) (o : Obj Statement W) → walk fuel o ≡ unnumbered (for_each api (λ _. body) fuel o)
  unfolding for_each begin
  walk-for_each fuel o =
      rw (begin_lem o.self.completed) (loop_lem fuel 0 o.self.completed o.self o.world)
