-- ===== src/Vfs.antt =====
-- kernel/src/vfs: the file systems. The trait of mod.rs has one implementation, the RAM file system.
pub mod Path
pub mod RamFs
