-- ===== src/Statement/Ownership.antt =====
-- The statement's pointer and flags: `reset()`, the destructor and the defaulted move.
use sqxx.Base.{none, ℕ, ◌≡◌, refl, true, false, some, []}
use sqxx.Effect.{Code, sqlite_row, sqlite_done, Obj, returned, ◌>>◌}
use sqxx.Statement.{Statement, StmtApi, reset, destroy, finalize_if, after_step, step, run, move}
use sqxx.Statement.Rows.{begin}

module _ {W D : Type 0} (api : StmtApi W D) where
  -- On a statement whose last step gave a row, `reset()` returns, whatever code sqlite3_reset gives;
  -- it empties the table of columns, and leaves `done()` false, so that a loop that is started
  -- without another `run()` begins with a row that is no longer there.
  pub begin-reset :
      (o : Obj Statement W)
      → o.self.completed ≡ false
      → (reset api >> begin) o ≡ (
        returned (record { attached = true; rowidx = 0 }),
        record {
          self = record o.self { col_index_table = []; col_index_table_built = false };
          world = (api.reset o.self.handle o.world).1;
        },
      )
  unfolding reset begin
  begin-reset o h = rw h

  -- A statement with a pointer that was moved from, by the defaulted move constructor, keeps its
  -- pointer: when both objects are gone, sqlite3_finalize was called twice for it.
  pub destroy-move :
      (p : ℕ) (s : Statement) (w : W)
      → s.handle ≡ some p
      → destroy api (move s).1 (destroy api (move s).0 w)
        ≡ (api.finalize (some p) (api.finalize (some p) w).1).1
  unfolding destroy move
  destroy-move p s w h = rw h

  pub destroy-none : (w : W) (s : Statement) → s.handle ≡ none → destroy api s w ≡ w
  unfolding destroy finalize_if
  destroy-none w s h = rw h

  pub destroy-some :
      (p : ℕ) (w : W) (s : Statement)
      → s.handle ≡ some p
      → destroy api s w ≡ (api.finalize (some p) w).1
  unfolding destroy finalize_if
  destroy-some p w s h = rw h

  after_step-keeps :
      (rv : Code) (o : Obj Statement W)
      → let (r, o') = after_step api rv o in (o'.world ≡ o.world) × (o'.self.handle ≡ o.self.handle)
  unfolding after_step
  after_step-keeps sqlite_row o = (refl, refl)
  after_step-keeps sqlite_done o = (refl, refl)
  after_step-keeps _ o = (refl, refl)

  -- A step, whatever its code, leaves the statement its pointer.
  pub run-keeps :
      (o : Obj Statement W)
      → let (r, o') = run api o in
        (o'.world ≡ (api.step o.self.handle o.world).1) × (o'.self.handle ≡ o.self.handle)
  unfolding run step
  run-keeps o = after_step-keeps (api.step o.self.handle o.world).0 _

  -- So does a reset.
  pub reset-keeps :
      (o : Obj Statement W)
      → let (r, o') = reset api o in
        (o'.world ≡ (api.reset o.self.handle o.world).1) × (o'.self.handle ≡ o.self.handle)
  unfolding reset
  reset-keeps o = (refl, refl)
