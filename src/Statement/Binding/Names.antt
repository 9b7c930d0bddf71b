-- ===== src/Statement/Binding/Names.antt =====
-- Parameters by name, against the numbering of sqlite3.
use sqxx.Base.{String, Bool-cases, inl, inr, true, false, ◌≡◌, some, if◌then◌else◌}
use sqxx.Base.Int.{ℤ, pos, ◌-ℤ◌, -ℤ_cancel}
use sqxx.Effect.{error, sqlite_range, Exec, Obj, call, check, ◌>>=◌, returned, thrown}
use sqxx.Statement.{Statement, StmtApi}
use sqxx.Statement.Binding.{
  Value, cannot_find, is_zero, param_index, bind, bind_named, bind_call, param_named, param_name,
}

module _ {W D : Type 0} (api : StmtApi W D) where
  abbrev pub sqlite_index : String → Obj Statement W → ℤ
  sqlite_index name o = api.bind_parameter_index o.self.handle name o.world

  param_index-known :
      (name : String) (o : Obj Statement W)
      → is_zero (sqlite_index name o) ≡ false
      → param_index api name o ≡ (returned (sqlite_index name o -ℤ pos 1), o)
  unfolding param_index
  param_index-known name o h = rw (h, if◌then◌else◌)

  param_index-unknown :
      (name : String) (o : Obj Statement W)
      → is_zero (sqlite_index name o) ≡ true
      → param_index api name o ≡ (thrown (error sqlite_range (cannot_find name)), o)
  unfolding param_index
  param_index-unknown name o h = rw (h, if◌then◌else◌)

  -- The call of sqlite3 that binds `value` at sqlite3's own index, and the test of its code.
  abbrev bind_at : ℤ → Value D → Exec (Obj Statement W) (Unit {0})
  bind_at at value o = (call (bind_call api o.self.handle at value) >>= check api.errstr) o

  -- Binding by name calls sqlite3 at the index that sqlite3 itself has for the name: the shift to
  -- the zero-based index and back cancels. An unknown name throws SQLITE_RANGE, and nothing is
  -- bound.
  pub bind_named_lem :
      (name : String) (value : Value D) (o : Obj Statement W)
      → bind_named api name value o ≡ (
          if is_zero (sqlite_index name o)
          then (thrown (error sqlite_range (cannot_find name)), o)
          else bind_at (sqlite_index name o) value o)
  unfolding bind_named bind
  bind_named_lem name value o = elim (Bool-cases (is_zero (sqlite_index name o))) [
    | inl h ↦ rw (param_index-unknown name o h, h)
    | inr h ↦ rw (param_index-known name o h, h, -ℤ_cancel (sqlite_index name o) (pos 1))
  ]

  -- A parameter found by its name tells that name, where sqlite3 knows the name and answers with it
  -- for the index that it gave.
  pub param_name-param_named :
      (name : String) (o : Obj Statement W)
      → is_zero (sqlite_index name o) ≡ false
      → api.bind_parameter_name o.self.handle (sqlite_index name o) o.world ≡ some name
      → (param_named api name >>= param_name api) o ≡ (returned name, o)
  unfolding param_named param_name
  param_name-param_named name o h e =
      rw (param_index-known name o h, -ℤ_cancel (sqlite_index name o) (pos 1), e)
