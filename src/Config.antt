-- ===== src/Config.antt =====
-- libs/bulk-action/src/config/BulkActionConfig.ts and the merge of `register` in BulkActionModule.ts. A field of
-- a `Partial` is `none` where it is not given; the section of the Redis server is passed on as it is and left
-- out.
pub mod Heartbeats
use nestjs_playground.Prelude.{ℕ, ◌*◌, Bool, true, Option, none, some, List, [], ◌∷◌}
use nestjs_playground.WorkerPool.Worker.{JobProcessor}

-- A property of the first object, unless the second has it.
abbrev pub given_or {ℓ} : {A : Type ℓ} → A → Option A → A
given_or default none = default
given_or default (some a) = a

pub record FairQueueConfig : Type 0 where
  pub alpha : ℕ

pub record PartialFairQueueConfig : Type 0 where
  pub alpha : Option ℕ

unfoldable pub default_fair_queue_config : FairQueueConfig
default_fair_queue_config = record { alpha = 10000 }

unfoldable pub merge_fair_queue_config : Option PartialFairQueueConfig → FairQueueConfig
unfolding default_fair_queue_config
merge_fair_queue_config none = default_fair_queue_config
merge_fair_queue_config (some p) = record {
  alpha = given_or default_fair_queue_config.alpha p.alpha;
}

pub record BackpressureConfig : Type 0 where
  pub global_rps : ℕ
  pub ready_queue_max_size : ℕ
  pub rate_limit_window_sec : ℕ
  pub rate_limit_key_ttl_sec : ℕ
  pub dispatch_interval_ms : ℕ
  pub dispatch_batch_size : ℕ
  pub default_backoff_ms : ℕ
  pub max_backoff_ms : ℕ

pub record PartialBackpressureConfig : Type 0 where
  pub global_rps : Option ℕ
  pub ready_queue_max_size : Option ℕ
  pub rate_limit_window_sec : Option ℕ
  pub rate_limit_key_ttl_sec : Option ℕ
  pub dispatch_interval_ms : Option ℕ
  pub dispatch_batch_size : Option ℕ
  pub default_backoff_ms : Option ℕ
  pub max_backoff_ms : Option ℕ

unfoldable pub default_backpressure_config : BackpressureConfig
default_backpressure_config = record {
  global_rps = 10000;
  ready_queue_max_size = 10000;
  rate_limit_window_sec = 1;
  rate_limit_key_ttl_sec = 2;
  dispatch_interval_ms = 100;
  dispatch_batch_size = 100;
  default_backoff_ms = 1000;
  max_backoff_ms = 60000;
}

unfoldable pub merge_backpressure_config : Option PartialBackpressureConfig → BackpressureConfig
unfolding default_backpressure_config
merge_backpressure_config none = default_backpressure_config
merge_backpressure_config (some p) = record {
  global_rps = given_or default_backpressure_config.global_rps p.global_rps;
  ready_queue_max_size =
      given_or default_backpressure_config.ready_queue_max_size p.ready_queue_max_size;
  rate_limit_window_sec =
      given_or default_backpressure_config.rate_limit_window_sec p.rate_limit_window_sec;
  rate_limit_key_ttl_sec =
      given_or default_backpressure_config.rate_limit_key_ttl_sec p.rate_limit_key_ttl_sec;
  dispatch_interval_ms =
      given_or default_backpressure_config.dispatch_interval_ms p.dispatch_interval_ms;
  dispatch_batch_size =
      given_or default_backpressure_config.dispatch_batch_size p.dispatch_batch_size;
  default_backoff_ms = given_or default_backpressure_config.default_backoff_ms p.default_backoff_ms;
  max_backoff_ms = given_or default_backpressure_config.max_backoff_ms p.max_backoff_ms;
}

pub record CongestionConfig : Type 0 where
  pub enabled : Bool
  pub base_backoff_ms : ℕ
  pub max_backoff_ms : ℕ
  pub stats_retention_ms : ℕ

pub record PartialCongestionConfig : Type 0 where
  pub enabled : Option Bool
  pub base_backoff_ms : Option ℕ
  pub max_backoff_ms : Option ℕ
  pub stats_retention_ms : Option ℕ

unfoldable pub default_congestion_config : CongestionConfig
default_congestion_config = record {
  enabled = true;
  base_backoff_ms = 1000;
  max_backoff_ms = 120000;
  stats_retention_ms = 3600000;
}

unfoldable pub merge_congestion_config : Option PartialCongestionConfig → CongestionConfig
unfolding default_congestion_config
merge_congestion_config none = default_congestion_config
merge_congestion_config (some p) = record {
  enabled = given_or default_congestion_config.enabled p.enabled;
  base_backoff_ms = given_or default_congestion_config.base_backoff_ms p.base_backoff_ms;
  max_backoff_ms = given_or default_congestion_config.max_backoff_ms p.max_backoff_ms;
  stats_retention_ms = given_or default_congestion_config.stats_retention_ms p.stats_retention_ms;
}

pub record WorkerPoolConfig : Type 0 where
  pub worker_count : ℕ
  pub fetch_interval_ms : ℕ
  pub fetch_batch_size : ℕ
  pub worker_timeout_sec : ℕ
  pub job_timeout_ms : ℕ
  pub max_retry_count : ℕ
  pub shutdown_grace_period_ms : ℕ

pub record PartialWorkerPoolConfig : Type 0 where
  pub worker_count : Option ℕ
  pub fetch_interval_ms : Option ℕ
  pub fetch_batch_size : Option ℕ
  pub worker_timeout_sec : Option ℕ
  pub job_timeout_ms : Option ℕ
  pub max_retry_count : Option ℕ
  pub shutdown_grace_period_ms : Option ℕ

unfoldable pub default_worker_pool_config : WorkerPoolConfig
default_worker_pool_config = record {
  worker_count = 10;
  fetch_interval_ms = 200;
  fetch_batch_size = 50;
  worker_timeout_sec = 5;
  job_timeout_ms = 30000;
  max_retry_count = 3;
  shutdown_grace_period_ms = 30000;
}

unfoldable pub merge_worker_pool_config : Option PartialWorkerPoolConfig → WorkerPoolConfig
unfolding default_worker_pool_config
merge_worker_pool_config none = default_worker_pool_config
merge_worker_pool_config (some p) = record {
  worker_count = given_or default_worker_pool_config.worker_count p.worker_count;
  fetch_interval_ms = given_or default_worker_pool_config.fetch_interval_ms p.fetch_interval_ms;
  fetch_batch_size = given_or default_worker_pool_config.fetch_batch_size p.fetch_batch_size;
  worker_timeout_sec = given_or default_worker_pool_config.worker_timeout_sec p.worker_timeout_sec;
  job_timeout_ms = given_or default_worker_pool_config.job_timeout_ms p.job_timeout_ms;
  max_retry_count = given_or default_worker_pool_config.max_retry_count p.max_retry_count;
  shutdown_grace_period_ms =
      given_or default_worker_pool_config.shutdown_grace_period_ms p.shutdown_grace_period_ms;
}

pub record AggregatorConfig : Type 0 where
  pub result_retention_ms : ℕ
  pub failed_details_max_count : ℕ

pub record PartialAggregatorConfig : Type 0 where
  pub result_retention_ms : Option ℕ
  pub failed_details_max_count : Option ℕ

unfoldable pub default_aggregator_config : AggregatorConfig
default_aggregator_config = record {
  result_retention_ms = 86400000;
  failed_details_max_count = 1000;
}

unfoldable pub merge_aggregator_config : Option PartialAggregatorConfig → AggregatorConfig
unfolding default_aggregator_config
merge_aggregator_config none = default_aggregator_config
merge_aggregator_config (some p) = record {
  result_retention_ms =
      given_or default_aggregator_config.result_retention_ms p.result_retention_ms;
  failed_details_max_count =
      given_or default_aggregator_config.failed_details_max_count p.failed_details_max_count;
}

pub record WatcherConfig : Type 0 where
  pub interval_ms : ℕ
  pub group_timeout_ms : ℕ
  pub lock_ttl_ms : ℕ
  pub lock_retry_count : ℕ
  pub lock_retry_delay_ms : ℕ
  pub stale_group_threshold_ms : ℕ

pub record PartialWatcherConfig : Type 0 where
  pub interval_ms : Option ℕ
  pub group_timeout_ms : Option ℕ
  pub lock_ttl_ms : Option ℕ
  pub lock_retry_count : Option ℕ
  pub lock_retry_delay_ms : Option ℕ
  pub stale_group_threshold_ms : Option ℕ

unfoldable pub default_watcher_config : WatcherConfig
default_watcher_config = record {
  interval_ms = 5000;
  group_timeout_ms = 3600000;
  lock_ttl_ms = 30000;
  lock_retry_count = 3;
  lock_retry_delay_ms = 200;
  stale_group_threshold_ms = 60000;
}

unfoldable pub merge_watcher_config : Option PartialWatcherConfig → WatcherConfig
unfolding default_watcher_config
merge_watcher_config none = default_watcher_config
merge_watcher_config (some p) = record {
  interval_ms = given_or default_watcher_config.interval_ms p.interval_ms;
  group_timeout_ms = given_or default_watcher_config.group_timeout_ms p.group_timeout_ms;
  lock_ttl_ms = given_or default_watcher_config.lock_ttl_ms p.lock_ttl_ms;
  lock_retry_count = given_or default_watcher_config.lock_retry_count p.lock_retry_count;
  lock_retry_delay_ms = given_or default_watcher_config.lock_retry_delay_ms p.lock_retry_delay_ms;
  stale_group_threshold_ms =
      given_or default_watcher_config.stale_group_threshold_ms p.stale_group_threshold_ms;
}

pub record ReliableQueueConfig : Type 0 where
  pub ack_timeout_ms : ℕ
  pub orphan_recovery_interval_ms : ℕ
  pub orphan_recovery_batch_size : ℕ
  pub max_retry_count : ℕ
  pub dead_letter_retention_ms : ℕ
  pub idempotency_ttl_ms : ℕ
  pub worker_poll_interval_ms : ℕ

pub record PartialReliableQueueConfig : Type 0 where
  pub ack_timeout_ms : Option ℕ
  pub orphan_recovery_interval_ms : Option ℕ
  pub orphan_recovery_batch_size : Option ℕ
  pub max_retry_count : Option ℕ
  pub dead_letter_retention_ms : Option ℕ
  pub idempotency_ttl_ms : Option ℕ
  pub worker_poll_interval_ms : Option ℕ

unfoldable pub default_reliable_queue_config : ReliableQueueConfig
default_reliable_queue_config = record {
  ack_timeout_ms = 40000;
  orphan_recovery_interval_ms = 5000;
  orphan_recovery_batch_size = 100;
  max_retry_count = 3;
  dead_letter_retention_ms = 30 * 24 * 60 * 60 * 1000;
  idempotency_ttl_ms = 86400000;
  worker_poll_interval_ms = 200;
}

unfoldable pub merge_reliable_queue_config : Option PartialReliableQueueConfig → ReliableQueueConfig
unfolding default_reliable_queue_config
merge_reliable_queue_config none = default_reliable_queue_config
merge_reliable_queue_config (some p) = record {
  ack_timeout_ms = given_or default_reliable_queue_config.ack_timeout_ms p.ack_timeout_ms;
  orphan_recovery_interval_ms =
      given_or default_reliable_queue_config.orphan_recovery_interval_ms
        p.orphan_recovery_interval_ms;
  orphan_recovery_batch_size =
      given_or default_reliable_queue_config.orphan_recovery_batch_size
        p.orphan_recovery_batch_size;
  max_retry_count = given_or default_reliable_queue_config.max_retry_count p.max_retry_count;
  dead_letter_retention_ms =
      given_or default_reliable_queue_config.dead_letter_retention_ms p.dead_letter_retention_ms;
  idempotency_ttl_ms =
      given_or default_reliable_queue_config.idempotency_ttl_ms p.idempotency_ttl_ms;
  worker_poll_interval_ms =
      given_or default_reliable_queue_config.worker_poll_interval_ms p.worker_poll_interval_ms;
}

pub record BulkActionConfig : Type 0 where
  pub fair_queue : FairQueueConfig
  pub backpressure : BackpressureConfig
  pub congestion : CongestionConfig
  pub worker_pool : WorkerPoolConfig
  pub aggregator : AggregatorConfig
  pub watcher : WatcherConfig
  pub reliable_queue : ReliableQueueConfig

pub record BulkActionOptions : Type 0 where
  pub fair_queue : Option PartialFairQueueConfig
  pub backpressure : Option PartialBackpressureConfig
  pub congestion : Option PartialCongestionConfig
  pub worker_pool : Option PartialWorkerPoolConfig
  pub aggregator : Option PartialAggregatorConfig
  pub watcher : Option PartialWatcherConfig
  pub reliable_queue : Option PartialReliableQueueConfig

-- `mergedConfig`
unfoldable pub merged_config : BulkActionOptions → BulkActionConfig
unfolding merge_fair_queue_config merge_backpressure_config merge_congestion_config
    merge_worker_pool_config merge_aggregator_config merge_watcher_config
    merge_reliable_queue_config
merged_config o = record {
  fair_queue = merge_fair_queue_config o.fair_queue;
  backpressure = merge_backpressure_config o.backpressure;
  congestion = merge_congestion_config o.congestion;
  worker_pool = merge_worker_pool_config o.worker_pool;
  aggregator = merge_aggregator_config o.aggregator;
  watcher = merge_watcher_config o.watcher;
  reliable_queue = merge_reliable_queue_config o.reliable_queue;
}

-- The processors that are injected: the custom ones, if there is one.
unfoldable pub job_processors :
    JobProcessor → JobProcessor → Option (List JobProcessor) → List JobProcessor
job_processors email push none = email ∷ push ∷ []
job_processors email push (some []) = email ∷ push ∷ []
job_processors email push (some (p ∷ ps)) = p ∷ ps
