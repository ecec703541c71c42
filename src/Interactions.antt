-- ===== src/Interactions.antt =====
-- services/api/interactions.py: the jobs that analyse sampled interactions, and their records.
pub mod Model
pub mod Jobs
pub mod Sound
pub mod Phases
pub mod Steps
pub mod Reach
pub mod Room
mod Tests
