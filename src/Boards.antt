-- ===== src/Boards.antt =====
-- kernel/src/boards: what the boards find out about the machine at start.
pub mod Multiboot
pub mod Fdt
