-- ===== src/Shell.antt =====
-- kernel/src/shell. The interactive shell of mod.rs is not modelled.
pub mod Users
