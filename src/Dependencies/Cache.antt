-- ===== src/Dependencies/Cache.antt =====
-- CacheManager of macloader/dependencies/cache.py: the files of the downloads directory and the index.
pub mod Files
pub mod Artifacts
pub mod Bounds
pub mod Unique
pub mod Pruned
pub mod Valid
pub mod Acquired
mod Samples
