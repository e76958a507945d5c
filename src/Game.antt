-- ===== src/Game.antt =====
-- Client sessions: the packets that a session sends and what it does with those it gets.
pub mod Heartbeat
pub mod Outbox
pub mod Session
pub mod Dispatch
