-- ===== src/Acpi.antt =====
-- src/acpi.rs and src/acpi/handlers.rs: the device mappings that the ACPI crates ask for, and power.
pub mod Handler
pub mod Regions
pub mod Accesses
pub mod Power
pub mod Tables
mod Tests
