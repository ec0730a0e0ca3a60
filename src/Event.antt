-- ===== src/Event.antt =====
-- event/: the transactional outbox and the queue over it. The two SQL tables are one state, and each
-- transaction is one step: it locks the outbox rows of its events first, so two transactions on one
-- event come one after the other. Times are nanoseconds, Durations are int64 bit patterns.
pub mod Tables
pub mod Retrying
pub mod Queue
pub mod Worker
pub mod Problems
pub mod DeadLetters
pub mod Housekeeping
pub mod Steps
mod Examples
