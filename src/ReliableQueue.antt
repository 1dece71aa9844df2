-- ===== src/ReliableQueue.antt =====
-- libs/bulk-action/src/reliable-queue: jobs in flight, their deadlines, and dead letters.
pub mod InFlight
pub mod Orphans
pub mod DeadLetters
pub mod OrphanRecovery
