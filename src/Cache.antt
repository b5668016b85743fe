-- ===== src/Cache.antt =====
-- The cache layer: pkg/common/storage/cache/redis/batch_handler.go and
-- pkg/common/cachekey/user.go.
pub mod Keys
pub mod Fetch
pub mod Slots
pub mod Deleter
pub mod Coherence
