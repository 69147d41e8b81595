-- ===== src/Ps2.antt =====
-- Kernel/Drivers/Input/PS2.c: the driver of PS/2 keyboards and mice.
pub mod Decoder
pub mod Set1
pub mod Set2
pub mod Irq
pub mod Strokes
mod Codes2
pub mod Decoding1
pub mod Decoding2
pub mod Lights
pub mod Places
pub mod Mouse
pub mod Responses
pub mod Exchange
pub mod Timeout
pub mod Setup
pub mod Enabled
pub mod Composed
mod Tests
