-- ===== src/Syscall.antt =====
-- System calls of kernel/src/syscall/mod.rs, over the states of the scheduler and the file system.
pub mod Pipes
pub mod Files
pub mod Memory
pub mod Open
pub mod Stat
pub mod Poll
pub mod Control
pub mod Numbers
pub mod Dispatch
mod Tests
