-- ===== src/MemoryPool.antt =====
-- The allocators: inc/memory_pool and src/memory_pool.
pub mod SizeClass
pub mod NgxPool
pub mod PageCache
pub mod BlockCache
