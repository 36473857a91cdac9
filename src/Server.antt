-- ===== src/Server.antt =====
-- The query API in internal/api, as far as the web client meets it.
pub mod SearchService
pub mod Routes
pub mod Blocks
pub mod RateLimit
