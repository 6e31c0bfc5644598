-- ===== src/Json.antt =====
-- The JSON helpers of backend/src/handlers.cpp: `json_read` and `json_build`.
pub mod Read
pub mod Build
pub mod Escape
pub mod Members
pub mod Grammar
