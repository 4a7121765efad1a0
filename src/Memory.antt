-- ===== src/Memory.antt =====
-- kernel/src/memory: the physical page allocator.
pub mod Buddy
pub mod Copy
pub mod Vmalloc
