-- ===== src/Memory.antt =====
-- Memory in ServerCore: the pools of the allocator, and the chunks of send buffers.
pub mod PoolManager
pub mod SendBuffer
pub mod Slab
