-- ===== src/Replacement.antt =====
-- packages/core/encodr_core/replacement: placing a verified output into the library.
pub mod Paths
pub mod FileSystem
pub mod Moves
pub mod Service
pub mod Steps
pub mod Apart
pub mod Kept
pub mod Safety
pub mod Ends
pub mod Success
mod Tests
