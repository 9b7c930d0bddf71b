-- ===== src/Lib.antt =====
-- Verification of sqxx, a C++ wrapper around the C library sqlite3: statements and their parameters,
-- columns and rows; connections, their handlers and exec(); SQL functions, aggregates and collations
-- written in C++; blob streams; backups; the options, limits and counters.
--
-- sqlite3 is not part of the repository. Each module takes the functions of sqlite3 that it calls as a
-- record (StmtApi, OpenApi, HookApi, …) over sqlite3's own state `W`, and where a theorem relies on
-- what sqlite3 documents, that is a second record of laws (OpenLaws, HookLaws, …) which is an argument
-- of the theorem; Tests gives each of them a concrete instance. A C++ function that changes an object and
-- may throw is a function from the object and the state to an outcome and both again (Effect).
--
-- Files, and the code they are about:
--   Effect          error.hpp: exceptions, static_error; the monad of wrapper functions
--   Error           error.hpp, error.cpp: managed_error, which owns its text
--   StdMap          std::map, for the table of columns
--   Heap, Slots     new and delete of C++ objects, and tables of unique_ptr that own them
--   Statement       statement.hpp, statement.cpp: construction, destruction, step, reset
--     Columns         col_index() and its table; column.cpp
--     Binding         bind() by index and name, param(); parameter.cpp, parameter.impl.hpp
--     Values          val<T>()
--     Rows            row_iterator, and the range-based for over a statement
--                     Manual has the loop over done() and next_row() of examples/usage.cpp
--     Cursor          statements and loops over them as operations, and the abstract cursor
--     Methods         the methods as values, and what any of them can do to sqlite3 (Frame, Framed)
--     Echo            bind(), run() and val<T>() together
--     Info            sql(), status_…(), readonly(), busy()
--     Ownership       the pointer that a statement holds
--   Callbacks       error.cpp: the handler of callbacks' exceptions; the sqxx_call_… functions of
--                   connection.cpp and config.cpp; connection_create_collation.impl.hpp
--   Connection      connection.hpp, connection.cpp: open, close
--     Handlers        set_…_handler(), busy_timeout(), wal_autocheckpoint(), and ~connection()
--     Execution       exec()
--     Queries         prepare(), query(), run()
--     Limits, Status  limit_…(), status_…()
--     Info            config_…(), readonly(), metadata(), wal_checkpoint_…(); Changes has the accessors
--   Session         connection.cpp and statement.cpp: programs with many statements on a connection,
--                   with the connection's own life (Connected), and in a scope that the first
--                   exception ends, as main() of examples/usage.cpp (Scope)
--   Function        connection_create_function.impl.hpp, connection_callbacks.impl.hpp, context.cpp
--     Aggregate       connection_create_aggregate.impl.hpp; Group has whole groups of rows, and Final
--                     the overload without a final function
--   Registration    create_…_register, create_…() and remove_…() of connection.cpp and the impl files
--     Registry        programs that create and remove, over sqlite3's registry and the heap; Using and Calling have
--                     the use of what is registered
--   Owners          handlers and registered functions of one connection on one heap, until ~connection()
--   SqlValue        value.hpp, value.cpp; Identity takes them together with Function
--   Overloads       datatypes.hpp, callable/parameter_pack.hpp, and bind() of statement.hpp: types
--     Callables       callable/callable.hpp, and the dispatch of create_function() by types
--   BlobSource      blob.hpp, blob.cpp
--   Backup          backup.hpp, backup.cpp; the copies that the compiler makes in Backup/Copied
--   Config          config.cpp, sqxx.cpp
--   Counters        datatypes.hpp: counter
--   Global          global.cpp: status_…(), and the other functions in Library
--   Base            shared names, lists and integers over the native numbers
-- The child modules named Lookup, Names, Visits, Safety, Lifetime, Ownership, Fold, Bounds, … hold the
-- theorems.
--
-- How the parts interact: a connection makes statements (Queries), which hold its reference; it hands
-- sqlite3 raw pointers to copies of handlers (Handlers) and of callables (Registration), and sqlite3 calls
-- back through functions that must not let an exception out (Callbacks, Function, Execution).
--
-- Conventions. Integers of C++ are integers here, and the conversions to `int` that the code makes
-- are written out where they can matter, in BlobSource and Connection/Info/Changes. A pointer is a
-- number, and the null pointer is `none`. Where an #if chooses by the version of sqlite3, the newest
-- branch is modelled. Overloads that take a std::string only pass on its c_str(), and share one
-- definition with those for const char*.
--
-- A statement's methods, as programs call them in Session, are all that change it or sqlite3, the
-- loops included; their results are left out there. Loops over rows, backup steps and blob bytes are
-- the code of a client of the iterators; they run on fuel, one unit for each test of the loop, and
-- the theorems say how much is enough: one or two more than there are rows, steps or bytes. The loop
-- over columns runs once for each column.
--
-- Abstract views. A statement over sqlite3 is a cursor: the row in hand, the rows to come and
-- whether it is at the end (Statement/Cursor). The registry with the heap of copies is a table of
-- callables (Registration/Registry). The statements that sqlite3 has open are those of the program's
-- objects (Session/Accounts). The hooks of a connection are a table of those that have a handler
-- (Connection/Handlers/Active).
--
-- Not modelled: failures of new, except where the code throws bad_alloc itself; the interplay of
-- threads; raw(), which gives the pointer itself; the headers' declarations; what examples/usage.cpp
-- prints; the tests under test/, and the sketches under casestudies/, which are not compiled and
-- partly call functions that are defined nowhere. In Function and Registration a callable's number of
-- arguments is a parameter; Overloads/Callables has its computation from the callable's type.
pub mod Backup
pub mod Base
pub mod BlobSource
pub mod Callbacks
pub mod Config
pub mod Connection
pub mod Counters
pub mod Effect
pub mod Error
pub mod Function
pub mod Global
pub mod Heap
pub mod Overloads
pub mod Owners
pub mod Registration
pub mod Session
pub mod Slots
pub mod SqlValue
pub mod Statement
pub mod StdMap
pub mod Tests
