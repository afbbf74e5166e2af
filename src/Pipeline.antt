-- ===== src/Pipeline.antt =====
-- The lead pipeline (internal/pipeline): what happens to one crawled item.
pub mod Contact
pub mod Types
pub mod Screen
pub mod Process
pub mod Rounds
mod Sample
mod Tests
