-- ===== src/Memory.antt =====
-- kernel/src/memory/mod.rs: the page allocator over the frame bitmap and, before that is ready, over
-- the boot-time bump allocator. The children model the other files of kernel/src/memory.
pub mod Bitmap
pub mod Mmap
pub mod Bump
pub mod Pages
mod Tests
