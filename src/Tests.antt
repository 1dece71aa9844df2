-- ===== src/Tests.antt =====
-- Runs of the definitions on small stores, one for each theorem that has conditions.
mod Locks
mod Numbers
mod Groups
mod Limits
mod Reliable
mod Queues
mod Watching
mod Configured
mod Signed
mod Completing
mod Working
mod Submitting
mod Clients
