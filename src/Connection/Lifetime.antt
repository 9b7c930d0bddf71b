-- ===== src/Connection/Lifetime.antt =====
-- connection.cpp: the life of a connection object, with what it leaves open.
use sqxx.Base.{refl, Bool, ℕ, String, ◌≡◌, List, [], ◌∷◌, none}
use sqxx.Effect.{Obj}
use sqxx.Connection.{Connection, OpenApi, open_file, close, close_sync, destroy, closed}
use sqxx.Connection.Accounts.{
  OpenLaws, Accounts, close-Accounts, close_sync-Accounts, open_file-Accounts, destroy-Accounts,
  begin-Accounts,
}

module _ {W : Type 0} (api : OpenApi W) (laws : OpenLaws api) where
  -- `open()` on a connection object that may hold a database already, for a sqlite3 that opens and
  -- closes as documented: once the object is gone, exactly the databases are open that were so
  -- before the call, the one that the object held among them.
  pub destroy-open_file :
      (file : String) (flags : ℕ) (o : Obj Connection W) (q : ℕ)
      → laws.is_open q (destroy api (open_file api file flags o).1).world ≡ laws.is_open q o.world
  unfolding open_file
  destroy-open_file file flags o q =
      destroy-Accounts api laws (λ t. laws.is_open t o.world) (open_file api file flags o).1
        (open_file-Accounts api laws (λ t. laws.is_open t o.world) file flags
          (record { self = closed; world = o.world }) refl (begin-Accounts api laws o.world))
        q

-- What a program does with a connection; an exception leaves the object for the next operation.
pub data Operation : Type 0 where
  opens : String → ℕ → Operation
  closes closes_sync : Operation

module _ {W : Type 0} (api : OpenApi W) where
  unfoldable pub perform : Operation → Obj Connection W → Obj Connection W
  perform (opens file flags) o = (open_file api file flags o).1
  perform closes o = (close api o).1
  perform closes_sync o = (close_sync api o).1

  unfoldable pub perform_all : List Operation → Obj Connection W → Obj Connection W
  unfolding perform
  perform_all [] o = o
  perform_all (x ∷ xs) o = perform_all xs (perform x o)

  -- Only a closed connection is opened.
  abbrev pub Fits : Operation → Connection → Type 0
  Fits (opens file flags) c = c.handle ≡ none
  Fits closes c = Unit
  Fits closes_sync c = Unit

  abbrev pub Disciplined : List Operation → Obj Connection W → Type 0
  Disciplined [] o = Unit
  Disciplined (x ∷ xs) o = Fits x o.self × Disciplined xs (perform x o)

module _ {W : Type 0} (api : OpenApi W) (laws : OpenLaws api) where
  perform-Accounts :
      (others : ℕ → Bool) (x : Operation) (o : Obj Connection W)
      → Fits api x o.self
      → Accounts api laws others o
      → Accounts api laws others (perform api x o)
  unfolding perform
  perform-Accounts others (opens file flags) o f a =
      open_file-Accounts api laws others file flags o f a
  perform-Accounts others closes o f a = close-Accounts api laws others o a
  perform-Accounts others closes_sync o f a = close_sync-Accounts api laws others o a

  perform_all-Accounts :
      (others : ℕ → Bool) (xs : List Operation) (o : Obj Connection W)
      → Disciplined api xs o
      → Accounts api laws others o
      → Accounts api laws others (perform_all api xs o)
  unfolding perform_all
  perform_all-Accounts others [] o d a = a
  perform_all-Accounts others (x ∷ xs) o (f, d) a =
      perform_all-Accounts others xs (perform api x o) d (perform-Accounts others x o f a)

  -- The life of a connection object that is opened only while it is closed, for a sqlite3 that opens
  -- and closes as documented: whatever opening and closing it went through, with whatever errors,
  -- after its destructor exactly the databases are open that were so when it was made.
  pub destroy-perform_all :
      (xs : List Operation) (w : W) (q : ℕ)
      → Disciplined api xs (record { self = closed; world = w })
      → laws.is_open q
          (destroy api (perform_all api xs (record { self = closed; world = w }))).world
        ≡ laws.is_open q w
  destroy-perform_all xs w q d =
      destroy-Accounts api laws (λ t. laws.is_open t w) _
        (perform_all-Accounts (λ t. laws.is_open t w) xs _ d (begin-Accounts api laws w)) q
