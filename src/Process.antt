-- ===== src/Process.antt =====
-- kernel/src/process/mod.rs: signals, file descriptor tables and tasks.
pub mod Signal
pub mod Fds
pub mod Task
