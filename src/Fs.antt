-- ===== src/Fs.antt =====
-- src/SQLFuseFS.cpp and src/VirtualFileHandleManager.cpp: the operations that FUSE calls.
pub mod Types
pub mod Handles
pub mod Access
pub mod Listing
pub mod Calls
pub mod HandleLaws
pub mod Runs
pub mod Sealed
pub mod ReadOnly
pub mod Coherence
pub mod Roots
pub mod Modes
mod Tests
