-- ===== src/App.antt =====
-- backend/src/main.cpp: the configuration, the command line and the life of the process.
pub mod Config
pub mod CommandLine
pub mod System
pub mod Process
pub mod Delivery
pub mod StartUp
pub mod Cleanup
