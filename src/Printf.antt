-- ===== src/Printf.antt =====
-- Stdlib/printf.c: the formatted output of integers, chars and strings, to a file descriptor and to
-- memory.
mod Tests
pub mod Spec
pub mod Number
pub mod Size
pub mod Machine
pub mod Memory
pub mod Descriptor
pub mod Digits
pub mod Paddings
pub mod Length
pub mod Bounded
pub mod Safety
pub mod Unchecked
pub mod Printed
pub mod Agreement
pub mod Reading
pub mod Readback
