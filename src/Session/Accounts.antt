-- ===== src/Session/Accounts.antt =====
-- The statements that sqlite3 has open, against the objects of a program, and what one method does to them.
pub mod Programs
use sqxx.Base.{
  ℕ, zero, suc, ◌+◌, ◌≤◌, ◌≡◌, refl, sym, ◌∙◌, ap, String, Bool, true, false, not, ◌||◌, Option,
  none, some, List, [], ◌∷◌, if◌then◌else◌, ◌==◌, ==_iff, arith, Bool-cases, inl, inr,
}
use sqxx.Effect.{static_error, Outcome, returned, thrown, Exec, Obj, is_ok}
use sqxx.Statement
use sqxx.Statement.{Handle, Statement, StmtApi}
use sqxx.Statement.Ownership.{destroy-none, destroy-some}
use sqxx.Statement.Methods.Frame.{Frame}
use sqxx.Connection.Queries
use sqxx.Connection.Queries.{PrepareApi, prepare, query}
use sqxx.Connection.Queries.Unwinding.{
  including, excluding, PrepareLaws, destroyed, owned, query-PrepareLaws, query-owned, query-same,
}
use sqxx.Session.Laws.{is_fit, SessionLaws}
use sqxx.Session.{
  Call, prepares, queries, calls, destroys, Session, added, on, without, perform, perform_all,
  destroy_all,
}

abbrev pub one : Handle → ℕ → ℕ
one none q = 0
one (some p) q = if q == p then 1 else 0

-- How many objects have the pointer.
abbrev pub holders : ℕ → List Statement → ℕ
holders q [] = 0
holders q (st ∷ objects) = one st.handle q + holders q objects

abbrev pub counted : Bool → ℕ
counted true = 1
counted false = 0

module _ {W D : Type 0} (api : PrepareApi W) (stmts : StmtApi W D)
    (laws : SessionLaws api stmts) where
  -- Besides `others`, exactly the statements of the objects are open, each of which one object has; and no
  -- call was given any other.
  pub record Accounts (others : ℕ → Bool) (s : Session W) : Type 0 where
    pub all :
        (q : ℕ) → counted (laws.base.is_open s.world q) ≡ holders q s.objects + counted (others q)
    pub clean : laws.strays s.world ≡ false

  -- All pointers of the objects are to open statements.
  abbrev pub Fit : List Statement → W → Type 0
  Fit objects w = (q : ℕ) → 1 ≤ holders q objects → laws.base.is_open w q ≡ true

  fit_head :
      (h : Handle) (n : ℕ → ℕ) (w : W)
      → ((q : ℕ) → 1 ≤ one h q + n q → laws.base.is_open w q ≡ true)
      → is_fit (laws.base.is_open w) h ≡ true
  fit_head none n w f = refl
  fit_head (some p) n w f = f p (ground (arith, (==_iff p p).1 refl))

  -- The object keeps its pointer, nothing is closed, and sqlite3 is given that pointer only.
  abbrev pub Kept : Obj Statement W → Obj Statement W → Type 0
  Kept o o' =
      (o'.self.handle ≡ o.self.handle)
      × ((q : ℕ) → laws.base.is_open o'.world q ≡ laws.base.is_open o.world q)
      × (is_fit (laws.base.is_open o.world) o.self.handle ≡ true
          → laws.strays o'.world ≡ laws.strays o.world)

  is_fit-same :
      (h k : Handle) (f g : ℕ → Bool)
      → k ≡ h
      → ((q : ℕ) → g q ≡ f q)
      → is_fit f h ≡ true
      → is_fit g k ≡ true
  is_fit-same none k f g e same fit = rw e refl
  is_fit-same (some p) k f g e same fit = rw e (same p ∙ fit)

  pub Kept-Frame : Frame stmts Kept
  Kept-Frame = record {
    and_then = λ {a} {b} {c} (h, opened, clean) (h', opened', clean'). (
      h' ∙ h,
      λ q. opened' q ∙ opened q,
      λ f. clean' (is_fit-same a.self.handle b.self.handle _ _ h opened f) ∙ clean f,
    );
    kept = λ o s e. (e, λ q. refl, λ f. refl);
    invoked = λ c o. (
      refl,
      λ q. laws.closes_none c o.self.handle o.world q,
      λ f. laws.given c o.self.handle o.world ∙ ground (arith, f),
    );
  }

  pub on_lem :
      (m : Exec (Obj Statement W) (Unit {0})) (i : ℕ) (objects : List Statement) (w : W)
      → ((o : Obj Statement W) → Kept o (m o).1)
      → Fit objects w
      → let s = on m i objects w in
        ((q : ℕ) → holders q s.objects ≡ holders q objects)
        × ((q : ℕ) → laws.base.is_open s.world q ≡ laws.base.is_open w q)
        × (laws.strays s.world ≡ laws.strays w)
  on_lem m i [] w keeps f = (λ q. refl, λ q. refl, refl)
  on_lem m zero (st ∷ objects) w keeps f =
      let (h, opened, clean) = keeps (record { self = st; world = w }) in
      (
        λ q. ap (λ x. one x q + holders q objects) h,
        opened,
        clean (fit_head st.handle (λ q. holders q objects) w f),
      )
  on_lem m (suc i) (st ∷ objects) w keeps f =
      let (same, opened, clean) = on_lem m i objects w keeps (λ q n. f q (omega arith)) in
      (λ q. ap (λ k. one st.handle q + k) (same q), opened, clean)

  -- The destructor closes the object's statement, if it has one.
  pub destroy_lem :
      (st : Statement) (w : W)
      → ((q : ℕ)
          → laws.base.is_open (Statement.destroy stmts st w) q
            ≡ excluding st.handle (laws.base.is_open w) q)
        × (is_fit (laws.base.is_open w) st.handle ≡ true
            → laws.strays (Statement.destroy stmts st w) ≡ laws.strays w)
  destroy_lem st w = (destroyed api stmts laws.base st w, unstrayed st.handle refl)
    where
      unstrayed :
          (h : Handle)
          → st.handle ≡ h
          → is_fit (laws.base.is_open w) h ≡ true
          → laws.strays (Statement.destroy stmts st w) ≡ laws.strays w
      unstrayed none e f = ap laws.strays (destroy-none stmts w st e)
      unstrayed (some p) e f =
          ap laws.strays (destroy-some stmts p w st e)
          ∙ laws.finalized (some p) w
          ∙ ground (arith, f)

  pub including-counted :
      (h : Handle) (opened : ℕ → Bool) (q : ℕ)
      → ((p : ℕ) → h ≡ some p → opened p ≡ false)
      → counted (including h opened q) ≡ one h q + counted (opened q)
  including-counted none opened q f = omega arith
  including-counted (some p) opened q f = elim (Bool-cases (q == p)) [
    | inl same ↦ rw same (rw (ap opened ((==_iff q p).0 same) ∙ f p refl) refl)
    | inr other ↦ rw other (omega arith)
  ]

  excluding-counted :
      (h : Handle) (opened : ℕ → Bool) (q : ℕ)
      → is_fit opened h ≡ true
      → counted (excluding h opened q) + one h q ≡ counted (opened q)
  excluding-counted none opened q f = ground arith
  excluding-counted (some p) opened q f = elim (Bool-cases (q == p)) [
    | inl same ↦ rw same (rw (ap opened ((==_iff q p).0 same) ∙ f) refl)
    | inr other ↦ rw other (ground arith)
  ]

  pub Accounts-Fit : (others : ℕ → Bool) (s : Session W) → Accounts others s → Fit s.objects s.world
  Accounts-Fit others s v q n = go (laws.base.is_open s.world q) (v.all q)
    where
      go : (b : Bool) → counted b ≡ holders q s.objects + counted (others q) → b ≡ true
      go true e = refl
      go false e = ground (arith, e, n)

  pub without_lem :
      (i : ℕ) (objects : List Statement) (w : W)
      → Fit objects w
      → let s = without (Statement.destroy stmts) i objects w in
        ((q : ℕ)
          → counted (laws.base.is_open s.world q) + holders q objects
            ≡ counted (laws.base.is_open w q) + holders q s.objects)
        × (laws.strays s.world ≡ laws.strays w)
  without_lem i [] w f = (λ q. refl, refl)
  without_lem zero (st ∷ objects) w f =
      let fit = fit_head st.handle (λ q. holders q objects) w f in
      let (opened, clean) = destroy_lem st w in
      (
        λ q. rw (opened q) (omega (arith, excluding-counted st.handle (laws.base.is_open w) q fit)),
        clean fit,
      )
  without_lem (suc i) (st ∷ objects) w f =
      let (opened, clean) = without_lem i objects w (λ q n. f q (omega arith)) in
      (λ q. omega (arith, opened q), clean)
