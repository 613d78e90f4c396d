-- ===== src/Errors.antt =====
-- src/ErrorHandler.cpp and include/ErrorHandler.hpp: error codes, messages, retries and contexts.
pub mod Codes
pub mod Errno
pub mod Message
pub mod Retry
pub mod Context
pub mod Waits
pub mod Loop
pub mod Classes
pub mod Scopes
pub mod Samples
mod Tests
