-- ===== src/Utils.antt =====
-- The containers that the parts share: include/Utils.
pub mod Interrupt
pub mod Lock
pub mod WaitLock
pub mod Pool
mod Tests
