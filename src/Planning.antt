-- ===== src/Planning.antt =====
-- packages/core/encodr_core/planning: from a probed file and a policy to a processing plan.
pub mod Models
pub mod Languages
pub mod Scores
pub mod Append
pub mod Best
pub mod Audio
pub mod Subtitles
pub mod Video
pub mod Planner
pub mod Profiles
pub mod Examples
mod Tests
