-- ===== src/Watcher.antt =====
-- The group watcher of libs/bulk-action: its state machine and its service.
pub mod StateMachine
pub mod Service
