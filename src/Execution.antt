-- ===== src/Execution.antt =====
-- packages/core/encodr_core/execution, and the service of packages/db/encodr_db/runtime/worker.py that runs a job.
pub mod Metrics
pub mod Safety
pub mod Service
pub mod Exclusions
pub mod Run
pub mod Backend
pub mod Command
mod Examples
mod Tests
