-- ===== src/Aggregator.antt =====
-- libs/bulk-action/src/aggregator: results of the jobs of a group, and the end of the group.
pub mod Scripts
pub mod StatusWrites
pub mod Service
pub mod DefaultAggregator
