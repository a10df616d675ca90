-- ===== src/Ipc.antt =====
-- kernel/src/ipc/mod.rs: the pipes and the static pool of them.
pub mod Pipe
pub mod Pool
