-- ===== src/Connection/Accounts.antt =====
-- Which databases sqlite3 has open, against the handle that a connection holds.
use sqxx.Base.{
  ℕ, String, ◌≡◌, refl, sym, ◌∙◌, Bool, true, false, none, some, ◌||◌, ◌&&◌, ◌==◌, ==_iff, arith,
  if◌then◌else◌, Bool-cases, inl, inr,
}
use mathlib.Core.Path.{subst}
use sqxx.Effect.{Exception, Exec, pure, throw, is_ok, check, Obj, ◌>>◌}
use sqxx.Statement.{Handle}
use sqxx.Connection.{
  Connection, OpenApi, open_file, close, close_if, close_sync, destroy, default_flags, closed,
}

-- The handle is this one.
abbrev pub owns : Handle → ℕ → Bool
owns none q = false
owns (some p) q = p == q

-- What sqlite3 documents of opening and closing: `is_open` tells the connections that exist.
pub record OpenLaws {W : Type 0} (api : OpenApi W) : Type 0 where
  pub is_open : ℕ → W → Bool
  -- a connection that open_v2 makes was not there before
  pub fresh :
      (file : String) (flags : ℕ) (w : W) (p : ℕ)
      → (api.open_v2 file flags w).1 ≡ some p
      → is_open p w ≡ false
  pub opens :
      (file : String) (flags : ℕ) (w : W) (q : ℕ)
      → is_open q (api.open_v2 file flags w).2 ≡ owns (api.open_v2 file flags w).1 q || is_open q w
  pub closes :
      (h : Handle) (w : W) (q : ℕ)
      → is_open q (api.close_v2 h w) ≡ (if owns h q then false else is_open q w)
  pub closes_sync :
      (h : Handle) (w : W) (q : ℕ)
      → is_open q (api.close h w).1
        ≡ (if is_ok (api.close h w).0 && owns h q then false else is_open q w)

module _ {W : Type 0} (api : OpenApi W) (laws : OpenLaws api) where
  -- Besides the connection that the object holds, sqlite3 has exactly these others open.
  pub record Accounts (others : ℕ → Bool) (o : Obj Connection W) : Type 0 where
    pub all : (q : ℕ) → laws.is_open q o.world ≡ owns o.self.handle q || others q
    pub apart : (q : ℕ) → owns o.self.handle q ≡ true → others q ≡ false

  pub close-Accounts :
      (others : ℕ → Bool) (o : Obj Connection W)
      → Accounts others o
      → Accounts others (close api o).1
  unfolding close
  close-Accounts others o a = record {
    all = λ q. ground (arith, laws.closes o.self.handle o.world q, a.all q, a.apart q);
    apart = λ q e. cc;
  }

  if-Accounts :
      (others : ℕ → Bool) (b : Bool) (m : Exec (Obj Connection W) (Unit {0})) (o : Obj Connection W)
      → Accounts others o
      → Accounts others (m o).1
      → Accounts others ((if b then pure tt else m) o).1
  if-Accounts others true m o a f = a
  if-Accounts others false m o a f = f

  failed-Accounts :
      (others : ℕ → Bool) (h : Handle) (e : Exception) (w : W)
      → Accounts others (record { self = record { handle = h }; world = w })
      → Accounts others
          ((close_if api h >> throw {A = Unit {0}} e)
            (record { self = record { handle = h }; world = w })).1
  unfolding close_if
  failed-Accounts others none e w a = a
  failed-Accounts others (some p) e w a = close-Accounts others _ a

  opened-Accounts :
      (others : ℕ → Bool) (file : String) (flags : ℕ) (o : Obj Connection W)
      → o.self.handle ≡ none
      → Accounts others o
      → let r = api.open_v2 file flags o.world in
        Accounts others (record { self = record { handle = r.1 }; world = r.2 })
  opened-Accounts others file flags o e a =
      let closed_all =
        λ (q : ℕ). subst (λ h. laws.is_open q o.world ≡ owns h q || others q) e (a.all q) in
      record {
        all = λ q. rw (laws.opens file flags o.world q, closed_all q);
        apart = fresh_apart (api.open_v2 file flags o.world).1 refl closed_all;
      }
    where
      fresh_apart :
          (h : Handle)
          → (api.open_v2 file flags o.world).1 ≡ h
          → ((q : ℕ) → laws.is_open q o.world ≡ others q)
          → (q : ℕ) → owns h q ≡ true
          → others q ≡ false
      fresh_apart none e all q own = absurd (cc)
      fresh_apart (some p) e all q own =
          let same : p ≡ q = (==_iff p q).0 own in
          sym (all q)
          ∙ subst (λ t. laws.is_open t o.world ≡ false) same (laws.fresh file flags o.world p e)

  -- Opening a closed connection: no database is left open that the object does not hold, also where
  -- the opening fails, with or without a handle from sqlite3.
  pub open_file-Accounts :
      (others : ℕ → Bool) (file : String) (flags : ℕ) (o : Obj Connection W)
      → o.self.handle ≡ none
      → Accounts others o
      → Accounts others (open_file api file flags o).1
  unfolding open_file
  open_file-Accounts others file flags o e a =
      if-Accounts others (is_ok (api.open_v2 file (default_flags flags) o.world).0) _ _
        (opened-Accounts others file (default_flags flags) o e a)
        (failed-Accounts others _ _ _ (opened-Accounts others file (default_flags flags) o e a))

  pub close_sync-Accounts :
      (others : ℕ → Bool) (o : Obj Connection W)
      → Accounts others o
      → Accounts others (close_sync api o).1
  unfolding close_sync
  close_sync-Accounts others o a = elim (Bool-cases (is_ok (api.close o.self.handle o.world).0)) [
    | inl e ↦
        rw (e, check)
          (record {
            all = λ q. ground (arith, laws.closes_sync o.self.handle o.world q, a.all q, a.apart q);
            apart = λ q own. absurd (cc);
          })
    | inr e ↦
        rw (e, check)
          (record {
            all = λ q. ground (arith, laws.closes_sync o.self.handle o.world q, a.all q, a.apart q);
            apart = a.apart;
          })
  ]

  pub destroy-Accounts :
      (others : ℕ → Bool) (o : Obj Connection W)
      → Accounts others o
      → (q : ℕ) → laws.is_open q (destroy api o).world ≡ others q
  unfolding destroy
  destroy-Accounts others o a q = destroyed o.self.handle refl
    where
      destroyed :
          (h : Handle) → o.self.handle ≡ h → laws.is_open q (close_if api h o).1.world ≡ others q
      destroyed none e = subst (λ t. laws.is_open q o.world ≡ owns t q || others q) e (a.all q)
      destroyed (some p) e = ground (arith, laws.closes o.self.handle o.world q, a.all q, a.apart q)

  pub begin-Accounts :
      (w : W) → Accounts (λ q. laws.is_open q w) (record { self = closed; world = w })
  begin-Accounts w = record { all = λ q. refl; apart = λ q own. absurd (cc) }
