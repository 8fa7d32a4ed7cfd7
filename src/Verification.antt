-- ===== src/Verification.antt =====
-- packages/core/encodr_core/verification: checking a staged output against its plan.
pub mod Rules
pub mod Verifier
pub mod Delivered
mod Tests
