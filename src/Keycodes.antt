-- ===== src/Keycodes.antt =====
-- Kernel/Drivers/Input/Keycodes.h: the numbers of the keys (`keycode_t`) that the keyboard subsystem and
-- its driver name.
mod Basic
mod Extended
pub mod Numpad
pub use Basic.*
pub use Extended.*
