-- ===== src/Interrupts.antt =====
-- The interrupt controllers.
mod Tests
pub mod Controller
pub mod Programming
pub mod Handlers
pub mod Exceptions
pub mod Locks
