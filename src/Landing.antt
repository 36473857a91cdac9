-- ===== src/Landing.antt =====
-- The landing page: web/src/app/page.tsx and the components of web/src/features/landing.
pub mod RecentBlocks
pub mod TxTables
pub mod Cards
pub mod Newest
pub mod Home
pub mod HomeLinks
pub mod LatestLink
