-- ===== src/Kernel.antt =====
-- src/lib.rs and src/main.rs: the timer tick, the start of the kernel and its first program.
pub mod Tick
pub mod Start
pub mod Sata
pub mod Main
pub mod Testing
pub mod Logger
pub mod Gdt
mod Tests
