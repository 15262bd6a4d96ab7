-- ===== src/Cache.antt =====
-- The cache packages (cache/, cache/memory, cache/redis): in-process and Redis key-value stores.
pub mod Numbers
pub mod Memory
pub mod Redis
