-- ===== src/Cache.antt =====
-- src/CacheManager.cpp and include/CacheManager.hpp: the cache of file contents, bounded in bytes,
-- with a time to live for each entry. Time is an argument of each call, in the ticks of the clock;
-- the mutex makes each call one step.
pub mod Types
pub mod Pattern
pub mod Lru
pub mod Read
pub mod Evict
pub mod Write
pub mod Drop
pub mod Valid
pub mod Get
pub mod Evicted
pub mod Room
pub mod Taken
pub mod Put
pub mod Policy
pub mod Dropped
pub mod Matching
pub mod Samples
mod Tests
