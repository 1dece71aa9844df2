-- ===== src/Congestion.antt =====
-- libs/bulk-action/src/congestion: back-off for jobs that the rate limit holds back.
pub mod Backoff
pub mod Control
pub mod History
pub mod Release
