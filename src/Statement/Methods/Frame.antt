-- ===== src/Statement/Methods/Frame.antt =====
-- What the methods of a statement object can do to it and to sqlite3: change flags and the table of columns, and
-- call functions of sqlite3 on the object's own pointer.
use sqxx.Base.{ℕ, ◌≡◌, refl, String, Option, none, some, Bool-cases, inl, inr}
use sqxx.Base.Int.{ℤ, pos, ◌+ℤ◌}
use sqxx.Effect.{
  Code, sqlite_row, sqlite_done, Outcome, returned, thrown, Exec, Obj, ◌>>=◌, continue, check,
  is_ok,
}
use sqxx.Statement.{Bytes, Statement, StmtApi, step, after_step, reset, clear_bindings}
use sqxx.Statement.Binding.{
  Value, null, int, int64, double, text, str, blob, bind, bind_call, bind_named, param_index,
  is_zero,
}
use sqxx.Statement.Methods.{
  Native, binds_null, binds_int, binds_int64, binds_double, binds_text64, binds_blob64,
  binds_zeroblob64, invoke,
}

-- A relation between the object and sqlite3 before and after, that holds of each of those.
pub record Frame {W D : Type 0} (api : StmtApi W D)
    (Rel : Obj Statement W → Obj Statement W → Type 0) : Type 0 where
  pub and_then : {a b c : Obj Statement W} → Rel a b → Rel b c → Rel a c
  pub kept :
      (o : Obj Statement W) (s : Statement)
      → s.handle ≡ o.self.handle
      → Rel o (record { self = s; world = o.world })
  pub invoked :
      (c : Native D) (o : Obj Statement W)
      → Rel o (record { self = o.self; world = invoke api c o.self.handle o.world })

module _ {W D : Type 0} (api : StmtApi W D) (Rel : Obj Statement W → Obj Statement W → Type 0)
    (frame : Frame api Rel) where
  abbrev pub Within : {R : Type 0} → Exec (Obj Statement W) R → Type 0
  Within m = (o : Obj Statement W) → Rel o (m o).1

  pub same : (o : Obj Statement W) → Rel o o
  same o = frame.kept o o.self refl

  pub then-Within :
      {R Q : Type 0} (m : Exec (Obj Statement W) R) (k : R → Exec (Obj Statement W) Q)
      → Within m
      → ((r : R) → Within (k r))
      → Within (m >>= k)
  then-Within {R} m k f g o = go (m o) (f o)
    where
      go : (x : Outcome R × Obj Statement W) → Rel o x.1 → Rel o (continue x.0 k x.1).1
      go (returned r, o') h = frame.and_then h (g r o')
      go (thrown e, o') h = h

  check-Within : (code : Code) → Within (check api.errstr code)
  check-Within code o = elim (Bool-cases (is_ok code)) [
    | inl e ↦ rw e (same o)
    | inr e ↦ rw e (same o)
  ]

  after_step-Within : (code : Code) → Within (after_step api code)
  unfolding after_step
  after_step-Within sqlite_row o = frame.kept o _ refl
  after_step-Within sqlite_done o = frame.kept o _ refl
  after_step-Within _ o = same o

  pub step-Within : Within (step api)
  unfolding step
  step-Within o = frame.and_then (frame.invoked Native.steps o) (after_step-Within _ _)

  pub reset-Within : Within (reset api)
  unfolding reset
  reset-Within o = frame.and_then (frame.invoked Native.resets o) (frame.kept _ _ refl)

  pub clear_bindings-Within : Within (clear_bindings api)
  unfolding clear_bindings
  clear_bindings-Within o =
      frame.and_then (frame.invoked Native.clears_bindings o) (check-Within _ _)

  bind_call-Within :
      (at : ℤ) (v : Value D) (o : Obj Statement W)
      → Rel o (record { self = o.self; world = (bind_call api o.self.handle at v o.world).1 })
  unfolding bind_call
  bind_call-Within at null o = frame.invoked (binds_null at) o
  bind_call-Within at (int z) o = frame.invoked (binds_int at z) o
  bind_call-Within at (int64 z) o = frame.invoked (binds_int64 at z) o
  bind_call-Within at (double d) o = frame.invoked (binds_double at d) o
  bind_call-Within at (text none copy) o = frame.invoked (binds_null at) o
  bind_call-Within at (text (some bytes) copy) o = frame.invoked (binds_text64 at bytes _ _) o
  bind_call-Within at (str bytes copy) o = frame.invoked (binds_text64 at bytes _ _) o
  bind_call-Within at (blob b copy) o = go b.address b.size
    where
      go :
          (a : Option Bytes) (n : ℕ)
          → Rel o (record {
            self = o.self;
            world =
                (bind_call api o.self.handle at
                  (blob (record { address = a; size = n }) copy)
                  o.world).1;
          })
      go none n = frame.invoked (binds_zeroblob64 at n) o
      go (some bytes) n = frame.invoked (binds_blob64 at bytes n _) o

  pub bind-Within : (idx : ℤ) (v : Value D) → Within (bind api idx v)
  unfolding bind
  bind-Within idx v o = frame.and_then (bind_call-Within (idx +ℤ pos 1) v o) (check-Within _ _)

  param_index-Within : (key : String) → Within (param_index api key)
  unfolding param_index
  param_index-Within key o =
      elim (Bool-cases (is_zero (api.bind_parameter_index o.self.handle key o.world))) [
        | inl e ↦ rw e (same o)
        | inr e ↦ rw e (same o)
      ]

  pub bind_named-Within : (key : String) (v : Value D) → Within (bind_named api key v)
  unfolding bind_named
  bind_named-Within key v =
      then-Within (param_index api key) _ (param_index-Within key) (λ idx. bind-Within idx v)
