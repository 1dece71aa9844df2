-- ===== src/WebClient.antt =====
-- libs/web-client/src: requests that are built and sent, with retries.
pub mod RetryPolicy
pub mod RetryExecutor
pub mod Builder
