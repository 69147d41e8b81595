-- ===== src/Scancodes.antt =====
-- Kernel/Drivers/Input/PS2.c: the tables from scancodes to keys.
pub mod Set1
pub mod Set2
