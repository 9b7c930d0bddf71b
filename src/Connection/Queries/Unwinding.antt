-- ===== src/Connection/Queries/Unwinding.antt =====
-- No statement is leaked by `query()`: where it throws, the statement that it had prepared is finalized.
use sqxx.Base.{
  ap, ℕ, ◌≡◌, refl, sym, ◌∙◌, String, Bool, true, false, none, some, Bool-cases, inl, inr,
  if◌then◌else◌, ◌==◌, ==_iff,
}
use sqxx.Effect.{Outcome, returned, thrown, is_ok, Obj}
use sqxx.Statement
use sqxx.Statement.{Handle, StmtApi, Statement}
use sqxx.Statement.Ownership.{destroy-none, destroy-some, run-keeps}
use sqxx.Connection.Queries.{PrepareApi, prepare, unwind, run_prepared, query}

-- The statements that are open once there is one more.
abbrev pub including : Handle → (ℕ → Bool) → ℕ → Bool
including none opened q = opened q
including (some p) opened q = if q == p then true else opened q

abbrev pub excluding : Handle → (ℕ → Bool) → ℕ → Bool
excluding none opened q = opened q
excluding (some p) opened q = if q == p then false else opened q

-- What sqlite3 documents: a successful sqlite3_prepare_v2 gives a new statement, or the null pointer for a
-- text without one, and a failed one the null pointer; sqlite3_step closes none, and
-- sqlite3_finalize closes its argument.
pub record PrepareLaws {W D : Type 0} (api : PrepareApi W) (stmts : StmtApi W D) : Type 0 where
  pub is_open : W → ℕ → Bool
  pub prepares :
      (h : Handle) (sql : String) (w : W) (q : ℕ)
      → is_open (api.prepare_v2 h sql w).2 q ≡ including (api.prepare_v2 h sql w).1 (is_open w) q
  pub fresh :
      (h : Handle) (sql : String) (w : W) (p : ℕ)
      → (api.prepare_v2 h sql w).1 ≡ some p
      → is_open w p ≡ false
  pub fails :
      (h : Handle) (sql : String) (w : W)
      → is_ok (api.prepare_v2 h sql w).0 ≡ false
      → (api.prepare_v2 h sql w).1 ≡ none
  pub steps : (h : Handle) (w : W) (q : ℕ) → is_open (stmts.step h w).1 q ≡ is_open w q
  pub finalizes :
      (p : ℕ) (w : W) (q : ℕ)
      → is_open (stmts.finalize (some p) w).1 q ≡ excluding (some p) (is_open w) q

-- The statement that the caller was given, if any.
abbrev pub owned : Outcome Statement → Handle
owned (returned st) = st.handle
owned (thrown e) = none

module _ {W D : Type 0} (api : PrepareApi W) (stmts : StmtApi W D) where
  unwind-owned :
      (r : Outcome (Unit {0})) (o : Obj Statement W) (p : ℕ)
      → owned (unwind api stmts (r, o)).0 ≡ some p
      → o.self.handle ≡ some p
  unfolding unwind
  unwind-owned (returned _) o p e = e
  unwind-owned (thrown _) o p e = cc

  -- The statement that `query()` returns is the one that it prepared.
  pub query-owned :
      (conn : ℕ) (h : Handle) (sql : String) (w : W) (p : ℕ)
      → owned (query api stmts conn h sql w).0 ≡ some p
      → (api.prepare_v2 h sql w).1 ≡ some p
  unfolding query prepare run_prepared Statement.init
  query-owned conn h sql w p = elim (Bool-cases (is_ok (api.prepare_v2 h sql w).0)) [
    | inl ok ↦ rw ok (λ e.
        let o : Obj Statement W = record {
          self = Statement.init conn (api.prepare_v2 h sql w).1;
          world = (api.prepare_v2 h sql w).2;
        } in
        sym (run-keeps stmts o).1
        ∙ unwind-owned (Statement.run stmts o).0 (Statement.run stmts o).1 p e)
    | inr failed ↦ rw failed (λ e. cc)
  ]

  unwind-same :
      {A : Type 0} (f : W → A) (r : Outcome (Unit {0})) (o : Obj Statement W)
      → f (Statement.destroy stmts o.self o.world) ≡ f o.world
      → f (unwind api stmts (r, o)).1 ≡ f o.world
  unfolding unwind
  unwind-same f (returned _) o e = refl
  unwind-same f (thrown _) o e = e

  -- `query()` changes sqlite3 by preparing, by a step of the new statement, and by destroying it.
  pub query-same :
      {A : Type 0} (f : W → A) (conn : ℕ) (h : Handle) (sql : String) (w : W)
      → let (code, stmt, prepared) = api.prepare_v2 h sql w in
        let stepped = (stmts.step stmt prepared).1 in
        f prepared ≡ f w
        → f stepped ≡ f prepared
        → ((st : Statement) → st.handle ≡ stmt → f (Statement.destroy stmts st stepped) ≡ f stepped)
        → f (query api stmts conn h sql w).1 ≡ f w
  unfolding query prepare run_prepared Statement.init
  query-same f conn h sql w e1 e2 e3 = elim (Bool-cases (is_ok (api.prepare_v2 h sql w).0)) [
    | inl e ↦
        let o : Obj Statement W = record {
          self = Statement.init conn (api.prepare_v2 h sql w).1;
          world = (api.prepare_v2 h sql w).2;
        } in
        let (stepped, kept) = run-keeps stmts o in
        rw e (
          unwind-same f (Statement.run stmts o).0 (Statement.run stmts o).1 (
            ap (λ x. f (Statement.destroy stmts (Statement.run stmts o).1.self x)) stepped
            ∙ e3 (Statement.run stmts o).1.self kept
            ∙ ap f (sym stepped))
          ∙ ap f stepped
          ∙ e2
          ∙ e1)
    | inr e ↦ rw e e1
  ]

module _ {W D : Type 0} (api : PrepareApi W) (stmts : StmtApi W D)
    (laws : PrepareLaws api stmts) where
  pub destroyed :
      (st : Statement) (w : W) (q : ℕ)
      → laws.is_open (Statement.destroy stmts st w) q ≡ excluding st.handle (laws.is_open w) q
  destroyed st w q = go st.handle refl
    where
      go :
          (h : Handle)
          → st.handle ≡ h
          → laws.is_open (Statement.destroy stmts st w) q ≡ excluding h (laws.is_open w) q
      go none e = rw (destroy-none stmts w st e) refl
      go (some p) e = rw (destroy-some stmts p w st e) (laws.finalizes p w q)

  -- What is open after the statement was run is what was open and the statement itself, if it is given back.
  unwind_lem :
      (opened : ℕ → Bool) (q : ℕ) (r : Outcome (Unit {0})) (o : Obj Statement W)
      → ((p : ℕ) → o.self.handle ≡ some p → opened p ≡ false)
      → laws.is_open o.world q ≡ including o.self.handle opened q
      → let (r', w) = unwind api stmts (r, o) in laws.is_open w q ≡ including (owned r') opened q
  unfolding unwind
  unwind_lem opened q (returned _) o fresh e = e
  unwind_lem opened q (thrown _) o fresh e = destroyed o.self o.world q ∙ go o.self.handle fresh e
    where
      go :
          (h : Handle)
          → ((p : ℕ) → h ≡ some p → opened p ≡ false)
          → laws.is_open o.world q ≡ including h opened q
          → excluding h (laws.is_open o.world) q ≡ opened q
      go none f g = g
      go (some p) f g = elim (Bool-cases (q == p)) [
        | inl same ↦ rw same (sym (f p refl) ∙ ap opened (sym ((==_iff q p).0 same)))
        | inr other ↦ rw other (rw other at g)
      ]

  run_prepared_lem :
      (opened : ℕ → Bool) (q : ℕ) (st : Statement) (w : W)
      → ((p : ℕ) → st.handle ≡ some p → opened p ≡ false)
      → laws.is_open w q ≡ including st.handle opened q
      → let (r, w') = run_prepared api stmts (returned st, w) in
        laws.is_open w' q ≡ including (owned r) opened q
  unfolding run_prepared
  run_prepared_lem opened q st w fresh e =
      let o : Obj Statement W = record { self = st; world = w } in
      let (stepped, kept) = run-keeps stmts o in
      unwind_lem opened q (Statement.run stmts o).0 (Statement.run stmts o).1
        (λ p h. fresh p (sym kept ∙ h))
        (ap (λ x. laws.is_open x q) stepped
          ∙ laws.steps st.handle w q
          ∙ e
          ∙ ap (λ x. including x opened q) (sym kept))

  -- For a sqlite3 that prepares, steps and finalizes as documented: after `query()` the open
  -- statements are those from before and the one that it returns; where preparing or the first step
  -- fails, no statement is open that was not open before.
  pub query-PrepareLaws :
      (conn : ℕ) (h : Handle) (sql : String) (w : W) (q : ℕ)
      → let (r, w') = query api stmts conn h sql w in
        laws.is_open w' q ≡ including (owned r) (laws.is_open w) q
  unfolding query prepare run_prepared Statement.init
  query-PrepareLaws conn h sql w q = elim (Bool-cases (is_ok (api.prepare_v2 h sql w).0)) [
    | inl e ↦ rw e (
        run_prepared_lem (laws.is_open w) q (Statement.init conn (api.prepare_v2 h sql w).1) _
          (laws.fresh h sql w) (laws.prepares h sql w q))
    | inr e ↦ rw e (rw (laws.fails h sql w e) at (laws.prepares h sql w q))
  ]
