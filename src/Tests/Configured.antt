-- ===== src/Tests/Configured.antt =====
-- The heartbeats of a worker under a configuration.
use nestjs_playground.Prelude.{arith, ℕ, ◌+◌, ◌<◌, none, some, ◌≡◌, refl, Bool-cases}
use nestjs_playground.Model.{String-discrete}
use nestjs_playground.Keys.{Key-discrete, in_flight_queue}
use nestjs_playground.Redis.{Db, millis, zrange, zadd, score_in, memory, empty_store}
use nestjs_playground.WorkerPool.Worker.{Meanwhile, heartbeats, heartbeat_interval}
use nestjs_playground.WorkerPool.Worker.Aside.{all_alone}
use nestjs_playground.Config.{
  BulkActionOptions, merged_config, merge_worker_pool_config, default_worker_pool_config,
  merge_reliable_queue_config, default_reliable_queue_config,
}
use nestjs_playground.Config.Heartbeats.{merged_config-heartbeats_ahead}

-- No option is given.
abbrev defaults : BulkActionOptions
defaults = record {
  fair_queue = none;
  backpressure = none;
  congestion = none;
  worker_pool = none;
  aggregator = none;
  watcher = none;
  reliable_queue = none;
}

abbrev claimed : Db
claimed = zadd in_flight_queue (millis 41000) "j1" empty_store

in_flight_until :
    score_in "j1" (zrange in_flight_queue claimed)
    ≡ some (millis (1000 + (merged_config defaults).reliable_queue.ack_timeout_ms))
unfolding zrange zadd Key-discrete String-discrete Bool-cases merged_config
    merge_reliable_queue_config default_reliable_queue_config
in_flight_until = refl

-- A processing that begins 5 ms after the claim, with heartbeats that are 2 ms late.
abbrev late : Meanwhile
late = all_alone 5 (λ n. 2) 1

merged_config-heartbeats_ahead_example :
    let extension = (merged_config defaults).reliable_queue.ack_timeout_ms in
    let interval = heartbeat_interval (merged_config defaults).worker_pool.job_timeout_ms in
    let d' = heartbeats late 1 interval "j1" extension 1005 claimed in
    (due : ℕ) × (score_in "j1" (zrange in_flight_queue d') ≡ some (millis due))
    × (1005 + 29000 < due)
unfolding heartbeat_interval merged_config merge_worker_pool_config default_worker_pool_config
merged_config-heartbeats_ahead_example =
    merged_config-heartbeats_ahead defaults late 1 29000 5 3 1000 1005 "j1" claimed tt tt
      (omega arith) (λ k e. refl) in_flight_until (omega arith) (omega arith)
