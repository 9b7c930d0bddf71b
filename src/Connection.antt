-- ===== src/Connection.antt =====
-- connection.hpp and connection.cpp: the object, opening and closing. Handlers, exec and the rest are
-- in the modules below.
pub mod Accounts
pub mod Lifetime
pub mod Untouched
pub mod Handlers
pub mod Execution
pub mod Queries
pub mod Limits
pub mod Status
pub mod Info
use sqxx.Base.{ℕ, String, Bool, true, false, Option, none, some, if◌then◌else◌, ◌==◌}
use sqxx.Effect.{
  Code, Exec, Obj, ◌>>=◌, ◌>>◌, pure, throw, call, gets, modify, static_error, check, is_ok,
}
use sqxx.Statement.{Handle}

-- The functions of sqlite3 that open and close a database. `open_v2` sets the handle also where it
-- fails, to a connection or to the null pointer.
pub record OpenApi (W : Type 0) : Type 0 where
  pub errstr : Code → String
  pub open_v2 : String → ℕ → W → Code × Handle × W
  pub close_v2 : Handle → W → W
  pub close : Handle → W → Code × W

-- `callbacks`, the table of the handlers, is in Connection/Handlers.
pub record Connection : Type 0 where
  pub handle : Handle

-- enum open_flags, those that a database is opened with by name here
abbrev pub open_readonly : ℕ
open_readonly = 0x00000001

abbrev pub open_readwrite : ℕ
open_readwrite = 0x00000002

abbrev pub open_create : ℕ
open_create = 0x00000004

abbrev pub open_uri : ℕ
open_uri = 0x00000040

abbrev pub open_memory : ℕ
open_memory = 0x00000080

abbrev pub closed : Connection
closed = record { handle = none }

-- `if (!flags) flags = OPEN_READWRITE;`
unfoldable pub default_flags : ℕ → ℕ
default_flags flags = if flags == 0 then open_readwrite else flags

module _ {W : Type 0} (api : OpenApi W) where
  unfoldable pub close : Exec (Obj Connection W) (Unit {0})
  close o = (pure tt) (record {
    self = record o.self { handle = none };
    world = api.close_v2 o.self.handle o.world;
  })

  unfoldable close_if : Handle → Exec (Obj Connection W) (Unit {0})
  unfolding close
  close_if none = pure tt
  close_if (some p) = close

  unfoldable pub open_file : String → ℕ → Exec (Obj Connection W) (Unit {0})
  unfolding close_if default_flags
  open_file filename flags o =
      let (rv, handle, w) = api.open_v2 filename (default_flags flags) o.world in
      let o' : Obj Connection W = record { self = record o.self { handle = handle }; world = w } in
      (if is_ok rv then pure tt else (close_if handle >> throw (static_error api.errstr rv))) o'

  pub close_sync : Exec (Obj Connection W) (Unit {0})
  close_sync = do
    handle ← gets (λ c. c.handle)
    rv ← call (api.close handle)
    check api.errstr rv
    modify (λ c. record c { handle = none })

  -- ~connection()
  pub destroy : Obj Connection W → Obj Connection W
  unfolding close_if
  destroy o = (close_if o.self.handle o).1
