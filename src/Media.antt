-- ===== src/Media.antt =====
-- services/api/cloud_media_outbox.py: references to local evidence frames, delivered after their
-- observation.
pub mod Model
pub mod Queue
pub mod Leases
mod Tests
