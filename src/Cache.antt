-- ===== src/Cache.antt =====
-- The caches of src/execution/cache.
pub mod Data
pub mod World
pub mod Output
pub mod Receipt
