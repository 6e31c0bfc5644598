-- ===== src/Utils.antt =====
-- backend/src/utils.hpp: one module for each group of helpers.
pub mod Base64
pub mod UrlDecode
pub mod Split
pub mod Trim
pub mod Case
pub mod JsonEscape
pub mod Uuid
