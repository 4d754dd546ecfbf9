-- ===== src/Memory.antt =====
-- kernel/drivers/LowLevel/Memory.c and include/LowLevel/Memory.h: virtual addresses, the table of
-- physical frames, and the page tables.
pub mod Address
pub mod Frames
pub mod Walk
pub mod Alloc
pub mod Malloc
pub mod Free
mod Tests
