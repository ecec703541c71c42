-- ===== src/Outbox.antt =====
-- services/api/cloud_outbox.py: the transactional outbox for metadata-only cloud delivery.
pub mod Model
pub mod Rows
pub mod Returns
pub mod Bindings
pub mod Queue
pub mod Leases
pub mod Upkeep
pub mod Tests
