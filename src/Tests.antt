-- ===== src/Tests.antt =====
-- Runs of the program's functions on small inputs, and the theorems at concrete inputs.
pub mod Texts
pub mod Serving
pub mod Storing
pub mod Bodies
pub mod Running
pub mod Process
pub mod Wire
pub mod Delivered
pub mod Configured
pub mod Answered
pub mod Listening
