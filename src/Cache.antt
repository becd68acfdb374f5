-- ===== src/Cache.antt =====
-- shared/cache
pub mod Bloom
pub mod RateLimit
pub mod Local
