-- ===== src/File.antt =====
-- src/VirtualFile.cpp and include/VirtualFile.hpp: one open file. Its mutex makes each call one
-- step.
pub mod Types
pub mod Buffer
pub mod Bytes
pub mod Sequential
pub mod Keys
pub mod Loads
pub mod Flushed
pub mod Key
pub mod Load
pub mod Flush
pub mod Samples
mod Tests
