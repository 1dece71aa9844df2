-- ===== src/WorkerPool.antt =====
-- libs/bulk-action/src/worker-pool: from the fair queue into the ready queue, and the processing of jobs.
pub mod Completion
pub mod Worker
pub mod Pool
pub mod Fetcher
