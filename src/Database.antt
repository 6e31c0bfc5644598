-- ===== src/Database.antt =====
-- backend/src/database.cpp over an SQLite connection, which is a parameter (`Sqlite`).
pub mod Sqlite
pub mod Operations
pub mod Table
pub mod Behaviour
pub mod Refines
pub mod Opening
pub mod Interleaving
