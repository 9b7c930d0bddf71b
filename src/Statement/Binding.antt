-- ===== src/Statement/Binding.antt =====
-- statement.cpp and statement.hpp, the parameters: by index (counted from 0, where sqlite3 counts
-- from 1) and by name; parameter.cpp and parameter.impl.hpp, the object for one parameter.
pub mod Names
use Prim.Native.String.{◌++◌}
use sqxx.Base.{ℕ, String, Bool, true, false, Option, none, some, List, length, ◌==◌, if◌then◌else◌}
use sqxx.Base.Int.{ℤ, pos, negsuc, ◌+ℤ◌, ◌-ℤ◌}
use sqxx.Effect.{Code, sqlite_range, error, Exec, Obj, ◌>>=◌, ◌>>◌, pure, throw, call, gets, check}
use sqxx.Statement.{Handle, Bytes, Lifetime, transient, static, Statement, StmtApi}

-- struct blob of datatypes.hpp.
pub record Blob : Type 0 where
  pub address : Option Bytes
  pub size : ℕ

-- The arguments that `bind` is overloaded on; `text` is `const char*`.
pub data Value (D : Type 0) : Type 0 where
  null : Value D
  int : ℤ → Value D
  int64 : ℤ → Value D
  double : D → Value D
  text : Option Bytes → Bool → Value D
  str : Bytes → Bool → Value D
  blob : Blob → Bool → Value D

-- class parameter: a statement and an index.
pub record Parameter : Type 0 where
  pub idx : ℤ

-- (copy ? SQLITE_TRANSIENT : SQLITE_STATIC)
abbrev pub lifetime : Bool → Lifetime
lifetime true = transient
lifetime false = static

abbrev pub is_zero : ℤ → Bool
is_zero (pos n) = n == 0
is_zero (negsuc n) = false

-- std::string("cannot find parameter \"") + name + "\""
abbrev pub cannot_find : String → String
cannot_find name = "cannot find parameter \"" ++ name ++ "\""

module _ {W D : Type 0} (api : StmtApi W D) where
  unfoldable pub param_index : String → Exec (Obj Statement W) ℤ
  param_index name = do
    handle ← gets (λ s. s.handle)
    idx ← call (λ w. (api.bind_parameter_index handle name w, w))
    if is_zero idx then throw (error sqlite_range (cannot_find name)) else pure (idx -ℤ pos 1)

  pub param_count : Exec (Obj Statement W) ℤ
  param_count = do handle ← gets (λ s. s.handle); call (λ w. (api.bind_parameter_count handle w, w))

  -- statement::param(int) and statement::param(const char*)
  pub param : ℤ → Exec (Obj Statement W) Parameter
  param idx = pure (record { idx = idx })

  pub param_named : String → Exec (Obj Statement W) Parameter
  unfolding param
  param_named name = do idx ← param_index name; param idx

  no_name : Option String → Exec (Obj Statement W) String
  no_name none = throw (error sqlite_range "cannot determine parameter name")
  no_name (some n) = pure n

  -- parameter::name()
  pub param_name : Parameter → Exec (Obj Statement W) String
  unfolding no_name
  param_name p = do
    handle ← gets (λ s. s.handle)
    n ← call (λ w. (api.bind_parameter_name handle (p.idx +ℤ pos 1) w, w))
    no_name n

  -- The call of sqlite3 that each overload makes, at sqlite3's own index.
  unfoldable pub bind_call : Handle → ℤ → Value D → W → Code × W
  bind_call handle at null = api.bind_null handle at
  bind_call handle at (int value) = api.bind_int handle at value
  bind_call handle at (int64 value) = api.bind_int64 handle at value
  bind_call handle at (double value) = api.bind_double handle at value
  bind_call handle at (text none copy) = api.bind_null handle at
  bind_call handle at (text (some bytes) copy) =
      api.bind_text64 handle at bytes (length bytes) (lifetime copy)
  bind_call handle at (str bytes copy) =
      api.bind_text64 handle at bytes (length bytes) (lifetime copy)
  bind_call handle at (blob b copy) = elim b.address [
    | none ↦ api.bind_zeroblob64 handle at b.size
    | some bytes ↦ api.bind_blob64 handle at bytes b.size (lifetime copy)
  ]

  unfoldable pub bind : ℤ → Value D → Exec (Obj Statement W) (Unit {0})
  unfolding bind_call
  bind idx value = do
    handle ← gets (λ s. s.handle)
    rv ← call (bind_call handle (idx +ℤ pos 1) value)
    check api.errstr rv

  -- bind(const char *name, …)
  unfoldable pub bind_named : String → Value D → Exec (Obj Statement W) (Unit {0})
  bind_named name value = do idx ← param_index name; bind idx value

  -- parameter::bind(…)
  pub param_bind : Parameter → Value D → Exec (Obj Statement W) (Unit {0})
  unfolding bind
  param_bind p value = bind p.idx value
