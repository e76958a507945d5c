-- ===== src/Threads.antt =====
-- The threading part of ServerCore: the lock, and the detector of deadlocks.
pub mod Lock
pub mod Detector
