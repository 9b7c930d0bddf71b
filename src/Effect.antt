-- ===== src/Effect.antt =====
-- What every wrapper is written in: a state and C++ exceptions. The C library, sqlite3, is a
-- parameter: its own state is `world`, and a call of it is a function on that state. The codes are
-- those that error.cpp, connection.cpp, statement.cpp and context.cpp name.
use sqxx.Base.{ℕ, String, Bool, true, false, if◌then◌else◌}

-- A result code of the C API. `other` is any code that the sources do not name.
pub data Code : Type 0 where
  sqlite_ok sqlite_error sqlite_abort sqlite_nomem : Code
  sqlite_misuse sqlite_range sqlite_row sqlite_done : Code
  other : ℕ → Code

abbrev pub is_ok : Code → Bool
is_ok sqlite_ok = true
is_ok _ = false

-- What C++ code may throw. `error` is `sqxx::error`, with its code and text; `unknown` stands for a
-- thrown value that is no `std::exception`.
pub data Exception : Type 0 where
  error : Code → String → Exception
  bad_alloc : Exception
  std_exception : String → Exception
  unknown : ℕ → Exception

pub data Outcome {ℓ} (A : Type ℓ) : Type ℓ where
  returned : A → Outcome A
  thrown : Exception → Outcome A

-- What was written before a throw stays written.
abbrev pub Exec : Type 0 → Type 0 → Type 0
Exec S A = S → Outcome A × S

abbrev pub continue : {S A B : Type 0} → Outcome A → (A → Exec S B) → Exec S B
continue (returned a) f s = f a s
continue (thrown e) f s = (thrown e, s)

infixl 5 ◌>>=◌ ◌>>◌
abbrev pub ◌>>=◌ : {S A B : Type 0} → Exec S A → (A → Exec S B) → Exec S B
◌>>=◌ m f s = let (r, s') = m s in continue r f s'

abbrev pub ◌>>◌ : {S B : Type 0} → Exec S (Unit {0}) → Exec S B → Exec S B
m >> k = m >>= λ _. k

abbrev pub pure : {S A : Type 0} → A → Exec S A
pure a s = (returned a, s)

abbrev pub throw : {S A : Type 0} → Exception → Exec S A
throw e s = (thrown e, s)

-- An object of the library together with the state of sqlite3.
pub record Obj (O W : Type 0) : Type 0 where
  pub self : O
  pub world : W

abbrev pub call : {O W R : Type 0} → (W → R × W) → Exec (Obj O W) R
call f s = let (r, w) = f s.world in (returned r, record s { world = w })

-- A call whose result is not used.
abbrev pub call_void : {O W : Type 0} → (W → W) → Exec (Obj O W) (Unit {0})
call_void f s = (returned tt, record s { world = f s.world })

abbrev pub gets : {O W R : Type 0} → (O → R) → Exec (Obj O W) R
gets f s = (returned (f s.self), s)

abbrev pub modify : {O W : Type 0} → (O → O) → Exec (Obj O W) (Unit {0})
modify f s = (returned tt, record s { self = f s.self })

-- `static_error(rv)`: the text is sqlite3_errstr's.
abbrev pub static_error : (Code → String) → Code → Exception
static_error errstr rv = error rv (errstr rv)

-- `if (rv != SQLITE_OK) throw static_error(rv);`
abbrev pub check : {S : Type 0} → (Code → String) → Code → Exec S (Unit {0})
check errstr rv = if is_ok rv then pure tt else throw (static_error errstr rv)
