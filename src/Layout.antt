-- ===== src/Layout.antt =====
-- Kernel/Drivers/Input/Keyboard.c: the AZERTY layout. A char is its byte.
pub mod Plain
pub mod CapsLock
pub mod Shift
pub mod AltGr
pub mod ShiftAltGr
