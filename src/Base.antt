-- ===== src/Base.antt =====
-- The folder base: mutexes, latches, atomic integers, threads and timestamps.
pub mod Text
pub mod Mutex
pub mod Latch
pub mod Atomic
pub mod Current
pub mod Exception
pub mod Thread
pub mod Timestamp
