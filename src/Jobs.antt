-- ===== src/Jobs.antt =====
-- The job system of ServerCore: job queues and the timer.
pub mod Queue
pub mod Timer
