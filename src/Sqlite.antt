-- ===== src/Sqlite.antt =====
-- The reader of SQLite databases, web/hydrui-client/src/utils/sqlite.
pub mod View
pub mod Record
pub mod Tree
pub mod Table
pub mod Database
mod Tests
mod DatabaseTests
