-- ===== src/Server.antt =====
-- backend/src/server.cpp: one module for each stage of a connection.
pub mod Pattern
pub mod Query
pub mod Receive
pub mod Parse
pub mod Connection
pub mod Lifecycle
pub mod Message
