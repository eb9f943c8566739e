-- ===== src/Header.antt =====
-- src/header.rs: the lock word of a slot.
pub mod Word
pub mod Code
pub mod Abstract
pub mod System
pub mod Invariant
pub mod Safety
pub mod Solo
pub mod Exclusive
mod Tests
