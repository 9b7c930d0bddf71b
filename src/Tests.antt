-- ===== src/Tests.antt =====
-- Small instances of sqlite3, and the theorems at them.
mod StatementApi
mod Statements
mod Connections
mod Execution
mod Functions
mod Preparer
mod Sessions
mod Programs
mod Cursors
mod Echoes
mod Registries
mod Groups
mod Objects
mod Copies
mod Cells
mod Identities
mod Streams
mod Settings
mod Types
mod Switches
