-- ===== src/Connection/Untouched.antt =====
-- What opening and closing a database leave alone.
use sqxx.Base.{◌≡◌, ◌∙◌, refl, ℕ, String, none, some, Bool-cases, inl, inr}
use sqxx.Effect.{Obj, Exception, thrown, static_error, is_ok, throw, ◌>>◌}
use sqxx.Statement.{Handle}
use sqxx.Connection.{Connection, OpenApi, close, close_if, open_file, default_flags, destroy}

-- `f` is a thing that sqlite3 could be asked.
module _ {W A : Type 0} (api : OpenApi W) (f : W → A) where
  close_if-same :
      ((h : Handle) (w : W) → f (api.close_v2 h w) ≡ f w)
      → (h : Handle) (o : Obj Connection W) → f (close_if api h o).1.world ≡ f o.world
  unfolding close_if close
  close_if-same closes none o = refl
  close_if-same closes (some p) o = closes o.self.handle o.world

  pub destroy_connection-same :
      ((h : Handle) (w : W) → f (api.close_v2 h w) ≡ f w)
      → (o : Obj Connection W) → f (destroy api o).world ≡ f o.world
  unfolding destroy
  destroy_connection-same closes o = close_if-same closes o.self.handle o

  failed-same :
      ((h : Handle) (w : W) → f (api.close_v2 h w) ≡ f w)
      → (h : Handle) (e : Exception) (o : Obj Connection W)
      → f ((close_if api h >> throw {A = Unit {0}} e) o).1.world ≡ f o.world
  unfolding close_if close
  failed-same closes none e o = refl
  failed-same closes (some p) e o = closes o.self.handle o.world

  pub open_file-same :
      ((file : String) (flags : ℕ) (w : W) → f (api.open_v2 file flags w).2 ≡ f w)
      → ((h : Handle) (w : W) → f (api.close_v2 h w) ≡ f w)
      → (file : String) (flags : ℕ) (o : Obj Connection W)
      → f (open_file api file flags o).1.world ≡ f o.world
  unfolding open_file
  open_file-same opens closes file flags o =
      elim (Bool-cases (is_ok (api.open_v2 file (default_flags flags) o.world).0)) [
        | inl e ↦ rw e (opens file (default_flags flags) o.world)
        | inr e ↦ rw e (failed-same closes _ _ _ ∙ opens file (default_flags flags) o.world)
      ]

module _ {W : Type 0} (api : OpenApi W) where
  closed_by : (h : Handle) (e : Exception) (w : W) → Obj Connection W
  closed_by h e w =
      ((close_if api h >> throw {A = Unit {0}} e)
        (record { self = record { handle = h }; world = w })).1

  closed_by-handle : (h : Handle) (e : Exception) (w : W) → (closed_by h e w).self.handle ≡ none
  unfolding closed_by close_if close
  closed_by-handle none e w = refl
  closed_by-handle (some p) e w = refl

  -- Where open() throws, the object has no handle.
  pub open_file-thrown :
      (file : String) (flags : ℕ) (e : Exception) (o : Obj Connection W)
      → (open_file api file flags o).0 ≡ thrown e
      → (open_file api file flags o).1.self.handle ≡ none
  unfolding open_file closed_by
  open_file-thrown file flags e o =
      elim (Bool-cases (is_ok (api.open_v2 file (default_flags flags) o.world).0)) [
        | inl ok ↦ rw ok (λ f. absurd (cc))
        | inr failed ↦
            let (rv, h, w) = api.open_v2 file (default_flags flags) o.world in
            rw failed (λ f. closed_by-handle h (static_error api.errstr rv) w)
      ]

  pub destroy-closed :
      (o : Obj Connection W) → o.self.handle ≡ none → (destroy api o).world ≡ o.world
  unfolding destroy close_if
  destroy-closed o e = rw e refl
