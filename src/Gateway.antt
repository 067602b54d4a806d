-- ===== src/Gateway.antt =====
-- The inference gateway (inference-gateway/src): the reports of what is to be billed.
pub mod Reporter
pub mod Batches
mod Tests
