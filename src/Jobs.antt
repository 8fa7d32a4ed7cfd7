-- ===== src/Jobs.antt =====
-- packages/db/encodr_db/repositories/jobs.py: the jobs that the workers run, their states and their queue.
pub mod Models
pub mod Policies
pub mod Marks
pub mod Database
pub mod Index
pub mod Queue
pub mod Retry
pub mod Backups
pub mod Examples
mod Tests
