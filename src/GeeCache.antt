-- ===== src/GeeCache.antt =====
-- geecache: a distributed cache.
pub mod Lru
pub mod ConsistentHash
pub mod Group
pub mod SingleFlight
pub mod HttpPool
mod Tests
