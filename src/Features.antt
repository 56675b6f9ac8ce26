-- ===== src/Features.antt =====
-- Feature entitlement (apps/datacore/src/features.ts).
pub mod Registry
pub mod Cascade
pub mod Service
pub mod Writes
pub mod Narrowing
pub mod Search
pub mod Closed
mod Tests
