-- ===== src/Lookup.antt =====
-- apps/lookups/networker_action: the relation of backup actions to policies, from collected documents.
pub mod Result
pub mod Models
pub mod Normalize
pub mod Jobs
pub mod Extract
pub mod Builder
pub mod Document
pub mod Store
pub mod Scan
mod Tests
