-- ===== src/Backpressure.antt =====
-- libs/bulk-action/src/backpressure: the rate limit, the ready and the non-ready queue.
pub mod RateLimiter
pub mod ReadyQueue
pub mod Admission
pub mod Dispatcher
