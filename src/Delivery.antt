-- ===== src/Delivery.antt =====
-- services/api/cloud_delivery.py: the authority of a claim, and the settlement of an answer.
pub mod Authority
pub mod Settlement
pub mod Settled
pub mod Standing
pub mod Retried
mod Tests
