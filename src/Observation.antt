-- ===== src/Observation.antt =====
-- services/api/cloud_observation.py: what of a local entity may reach the cloud.
pub mod Model
pub mod Map
pub mod Tests
