-- ===== src/Custody.antt =====
-- services/api/custody_engine.py: product custody over observed facts.
pub mod Model
pub mod Steps
pub mod Covers
pub mod Assess
pub mod Engine
pub mod Window
mod Tests
