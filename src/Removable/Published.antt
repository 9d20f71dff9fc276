-- ===== src/Removable/Published.antt =====
-- The published contracts that the writer reconciles before it writes.
pub mod Contracts
pub mod Checks
pub mod Bound
pub mod Payload
pub mod Accepted
