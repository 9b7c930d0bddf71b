-- ===== src/Session/Accounts/Programs.antt =====
-- Whole programs: the accounts stay in order call by call, so that no statement is left open at the end.
use sqxx.Base.{
  ℕ, ◌≡◌, refl, ◌∙◌, ap, String, Bool, true, false, none, some, List, [], ◌∷◌, ==_iff, arith,
  Bool-cases, inl, inr,
}
use sqxx.Effect.{static_error, Outcome, returned, thrown, Exec, Obj, is_ok}
use sqxx.Statement
use sqxx.Statement.{Handle, Statement, StmtApi}
use sqxx.Connection.Queries
use sqxx.Connection.Queries.{PrepareApi, prepare, query}
use sqxx.Connection.Queries.Unwinding.{including, owned, query-PrepareLaws, query-owned, query-same}
use sqxx.Session.Laws.{is_fit, SessionLaws}
use sqxx.Statement.Methods.{Native, apply_method}
use sqxx.Statement.Methods.Framed.{apply_method-Within}
use sqxx.Session.{
  Call, prepares, queries, calls, destroys, Session, added, on, without, perform, perform_all,
  destroy_all,
}
use sqxx.Session.Accounts.{
  Accounts, counted, Kept, Kept-Frame, on_lem, destroy_lem, including-counted, Accounts-Fit,
  without_lem,
}

module _ {W D : Type 0} (api : PrepareApi W) (stmts : StmtApi W D)
    (laws : SessionLaws api stmts) where
  added-Accounts :
      (others : ℕ → Bool) (r : Outcome Statement) (w : W) (s : Session W)
      → ((q : ℕ) → laws.base.is_open w q ≡ including (owned r) (laws.base.is_open s.world) q)
      → ((p : ℕ) → owned r ≡ some p → laws.base.is_open s.world p ≡ false)
      → laws.strays w ≡ laws.strays s.world
      → Accounts api stmts laws others s
      → Accounts api stmts laws others (added s.objects (r, w))
  added-Accounts others (returned st) w s opened fresh clean v = record {
    all = λ q. rw (opened q) (
        omega (
          arith,
          v.all q,
          including-counted api stmts laws st.handle (laws.base.is_open s.world) q fresh,
        ));
    clean = clean ∙ v.clean;
  }
  added-Accounts others (thrown e) w s opened fresh clean v = record {
    all = λ q. ap counted (opened q) ∙ v.all q;
    clean = clean ∙ v.clean;
  }

  prepare-Accounts :
      (others : ℕ → Bool) (conn : ℕ) (handle : Handle) (sql : String) (s : Session W)
      → Accounts api stmts laws others s
      → Accounts api stmts laws others (added s.objects (prepare api stmts conn handle sql s.world))
  unfolding Queries.prepare Statement.init
  prepare-Accounts others conn handle sql s v =
      elim (Bool-cases (is_ok (api.prepare_v2 handle sql s.world).0)) [
        | inl e ↦ rw e (
            added-Accounts others
              (returned (Statement.init conn (api.prepare_v2 handle sql s.world).1)) _ s
              (laws.base.prepares handle sql s.world) (laws.base.fresh handle sql s.world)
              (laws.prepares handle sql s.world) v)
        | inr e ↦ rw e (
            added-Accounts others
              (thrown (static_error api.errstr (api.prepare_v2 handle sql s.world).0)) _ s
              (λ q.
                rw (laws.base.fails handle sql s.world e) at
                  (laws.base.prepares handle sql s.world q))
              (no_pointer (laws.base.is_open s.world)) (laws.prepares handle sql s.world) v)
      ]
    where
      no_pointer : (opened : ℕ → Bool) (p : ℕ) → ◌≡◌ {A = Handle} none (some p) → opened p ≡ false
      no_pointer opened p e = cc

  query-Accounts :
      (others : ℕ → Bool) (conn : ℕ) (handle : Handle) (sql : String) (s : Session W)
      → Accounts api stmts laws others s
      → Accounts api stmts laws others (added s.objects (query api stmts conn handle sql s.world))
  query-Accounts others conn handle sql s v =
      let (code, stmt, prepared) = api.prepare_v2 handle sql s.world in
      let ready : is_fit (laws.base.is_open prepared) stmt ≡ true =
        prepared_fit handle sql s.world in
      let clean =
        query-same api stmts laws.strays conn handle sql s.world (laws.prepares handle sql s.world)
          (laws.given Native.steps stmt prepared ∙ ground (arith, ready))
          (λ st e.
            (destroy_lem api stmts laws st (stmts.step stmt prepared).1).1
              (rw e (stepped_fit stmt prepared ∙ ready))) in
      added-Accounts others (query api stmts conn handle sql s.world).0
        (query api stmts conn handle sql s.world).1 s
        (query-PrepareLaws api stmts laws.base conn handle sql s.world)
        (λ p e.
          laws.base.fresh handle sql s.world p (query-owned api stmts conn handle sql s.world p e))
        clean v
    where
      fit_including :
          (h : Handle) (f g : ℕ → Bool) → ((q : ℕ) → f q ≡ including h g q) → is_fit f h ≡ true
      fit_including none f g e = refl
      fit_including (some p) f g e = e p ∙ rw ((==_iff p p).1 refl) refl

      prepared_fit :
          (h : Handle) (sql : String) (w : W)
          → let (code, stmt, w') = api.prepare_v2 h sql w in
            is_fit (laws.base.is_open w') stmt ≡ true
      prepared_fit h sql w = fit_including _ _ (laws.base.is_open w) (laws.base.prepares h sql w)

      stepped_fit :
          (h : Handle) (w : W)
          → is_fit (laws.base.is_open (stmts.step h w).1) h ≡ is_fit (laws.base.is_open w) h
      stepped_fit none w = refl
      stepped_fit (some p) w = laws.base.steps (some p) w p

  on-Accounts :
      (m : Exec (Obj Statement W) (Unit {0})) (others : ℕ → Bool) (i : ℕ) (s : Session W)
      → ((o : Obj Statement W) → Kept api stmts laws o (m o).1)
      → Accounts api stmts laws others s
      → Accounts api stmts laws others (on m i s.objects s.world)
  on-Accounts m others i s keeps v =
      let (same, opened, clean) =
        on_lem api stmts laws m i s.objects s.world keeps
          (Accounts-Fit api stmts laws others s v) in
      record { all = λ q. rw (same q, opened q) (v.all q); clean = clean ∙ v.clean }

  without-Accounts :
      (others : ℕ → Bool) (i : ℕ) (s : Session W)
      → Accounts api stmts laws others s
      → Accounts api stmts laws others (without (Statement.destroy stmts) i s.objects s.world)
  without-Accounts others i s v =
      let (opened, clean) =
        without_lem api stmts laws i s.objects s.world (Accounts-Fit api stmts laws others s v) in
      record { all = λ q. omega (arith, opened q, v.all q); clean = clean ∙ v.clean }

  perform-Accounts :
      (others : ℕ → Bool) (conn : ℕ) (handle : Handle) (c : Call D) (s : Session W)
      → Accounts api stmts laws others s
      → Accounts api stmts laws others (perform api stmts conn handle c s)
  unfolding perform
  perform-Accounts others conn handle (prepares sql) s v =
      prepare-Accounts others conn handle sql s v
  perform-Accounts others conn handle (queries sql) s v = query-Accounts others conn handle sql s v
  perform-Accounts others conn handle (calls i m) s v =
      on-Accounts (apply_method stmts m) others i s
        (apply_method-Within stmts (Kept api stmts laws) (Kept-Frame api stmts laws) m) v
  perform-Accounts others conn handle (destroys i) s v = without-Accounts others i s v

  -- For a sqlite3 that prepares, runs and finalizes as documented, and while the accounts are in order before:
  -- whatever statements a program prepares, queries and destroys on a connection, and however it binds,
  -- runs, loops over, reads and resets them, in whatever order and with whatever errors, the statements open are those of its
  -- objects, each of one object, and the others from before; and sqlite3 was never given a statement
  -- that is not open.
  pub perform_all-Accounts :
      (others : ℕ → Bool) (conn : ℕ) (handle : Handle) (cs : List (Call D)) (s : Session W)
      → Accounts api stmts laws others s
      → Accounts api stmts laws others (perform_all api stmts conn handle cs s)
  unfolding perform_all
  perform_all-Accounts others conn handle [] s v = v
  perform_all-Accounts others conn handle (c ∷ cs) s v =
      perform_all-Accounts others conn handle cs _ (perform-Accounts others conn handle c s v)

  destroy_all-Accounts :
      (others : ℕ → Bool) (objects : List Statement) (w : W)
      → Accounts api stmts laws others (record { objects = objects; world = w })
      → Accounts api stmts laws others
          (record { objects = []; world = destroy_all stmts objects w })
  unfolding destroy_all
  destroy_all-Accounts others [] w v = v
  destroy_all-Accounts others (st ∷ objects) w v =
      destroy_all-Accounts others objects _ (without-Accounts others 0 _ v)

  counted_inj : (a b : Bool) → counted a ≡ counted b → a ≡ b
  counted_inj true true e = refl
  counted_inj false false e = refl
  counted_inj true false e = ground (arith, e)
  counted_inj false true e = ground (arith, e)

  -- For such a sqlite3, and a program that begins without statement objects: once it has done its calls, whatever
  -- they are, and the objects that it still has are destroyed, the open statements are those that
  -- were open at the beginning, none more and none fewer, and sqlite3 was never given a statement
  -- that is not open.
  pub destroy_all-perform_all :
      (conn : ℕ) (handle : Handle) (cs : List (Call D)) (w : W)
      → laws.strays w ≡ false
      → let s = perform_all api stmts conn handle cs (record { objects = []; world = w }) in
        let w' = destroy_all stmts s.objects s.world in
        ((q : ℕ) → laws.base.is_open w' q ≡ laws.base.is_open w q) × (laws.strays w' ≡ false)
  destroy_all-perform_all conn handle cs w clean =
      let others = laws.base.is_open w in
      let start : Accounts api stmts laws others (record { objects = []; world = w }) = record {
        all = λ q. omega arith;
        clean = clean;
      } in
      let s = perform_all api stmts conn handle cs (record { objects = []; world = w }) in
      let v =
        destroy_all-Accounts others s.objects s.world
          (perform_all-Accounts others conn handle cs _ start) in
      (λ q. counted_inj _ _ (omega (arith, v.all q)), v.clean)
