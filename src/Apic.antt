-- ===== src/Apic.antt =====
-- src/apic.rs: the interrupt controllers behind the local APIC.
mod Tests
pub mod Registers
pub mod RedirEntry
pub mod Routing
pub mod Entries
pub mod Start
