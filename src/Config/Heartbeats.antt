-- ===== src/Config/Heartbeats.antt =====
-- What a configuration must say for a worker's heartbeats to come in time (Worker.ts with BulkActionModule.ts).
use nestjs_playground.Prelude.{
  ℕ, suc, ◌+◌, ◌*◌, ◌≤◌, ◌<◌, String, Option, none, some, ◌≡◌, inl, inr, Option-cases, arith,
}
use nestjs_playground.Keys.{in_flight_queue}
use nestjs_playground.Redis.{Redis, Db, millis, zrange, score_in}
use nestjs_playground.WorkerPool.Worker.{Meanwhile, heartbeat_interval, heartbeats}
use nestjs_playground.WorkerPool.Worker.Tick.{heartbeats_ahead}
use nestjs_playground.Config.{
  PartialWorkerPoolConfig, merge_worker_pool_config, default_worker_pool_config,
  PartialReliableQueueConfig, merge_reliable_queue_config, default_reliable_queue_config,
  BulkActionOptions, merged_config,
}

-- The time-out of a job, if it is given, is at most `limit`.
abbrev pub TimesOutBy : ℕ → Option PartialWorkerPoolConfig → Type 0
TimesOutBy limit none = Unit {0}
TimesOutBy limit (some p) = (t : ℕ) → p.job_timeout_ms ≡ some t → t ≤ limit

-- The time for an acknowledgement, if it is given, is at least `limit`.
abbrev pub AcknowledgesFrom : ℕ → Option PartialReliableQueueConfig → Type 0
AcknowledgesFrom limit none = Unit {0}
AcknowledgesFrom limit (some p) = (t : ℕ) → p.ack_timeout_ms ≡ some t → limit ≤ t

times_out :
    (p : Option PartialWorkerPoolConfig)
    → TimesOutBy 60000 p
    → (merge_worker_pool_config p).job_timeout_ms ≤ 60000
unfolding merge_worker_pool_config default_worker_pool_config
times_out none h = omega arith
times_out (some p) h = elim (Option-cases p.job_timeout_ms) [
  | inl e ↦ rw e (omega arith)
  | inr (t, e) ↦ rw e (h t e)
]

acknowledges :
    (p : Option PartialReliableQueueConfig)
    → AcknowledgesFrom 40000 p
    → 40000 ≤ (merge_reliable_queue_config p).ack_timeout_ms
unfolding merge_reliable_queue_config default_reliable_queue_config
acknowledges none h = omega arith
acknowledges (some p) h = elim (Option-cases p.ack_timeout_ms) [
  | inl e ↦ rw e (omega arith)
  | inr (t, e) ↦ rw e (h t e)
]

interval_bounds : (timeout : ℕ) → timeout ≤ 60000 → heartbeat_interval timeout ≤ 36000
unfolding heartbeat_interval
interval_bounds timeout h = ground arith

-- With options that give no time-out of a job above 60 seconds and no time for an acknowledgement below 40: a job that
-- was claimed, whose entry no other client changes, whose processing began within `gap` milliseconds of the
-- claim, and whose heartbeats each take effect within `slack` milliseconds of their time, the two together
-- at most four seconds, is at every moment of its processing in flight with a deadline that is still ahead;
-- at the moment `elapsed`, `n` heartbeats have taken effect.
pub merged_config-heartbeats_ahead :
    ⦃r : Redis⦄ (o : BulkActionOptions) (meanwhile : Meanwhile)
    (n elapsed gap slack claimed start : ℕ) (j : String) (d : Db)
    → let extension = (merged_config o).reliable_queue.ack_timeout_ms in
      let interval = heartbeat_interval (merged_config o).worker_pool.job_timeout_ms in
      TimesOutBy 60000 o.worker_pool
      → AcknowledgesFrom 40000 o.reliable_queue
      → gap + slack ≤ 4000
      → ((k : ℕ) (e : Db)
          → score_in j (zrange in_flight_queue (meanwhile.acts k e))
            ≡ score_in j (zrange in_flight_queue e))
      → score_in j (zrange in_flight_queue d) ≡ some (millis (claimed + extension))
      → start ≤ claimed + gap
      → elapsed < suc n * interval + slack
      → let d' = heartbeats meanwhile n interval j extension start d in
        (due : ℕ) × (score_in j (zrange in_flight_queue d') ≡ some (millis due))
        × (start + elapsed < due)
unfolding merged_config
merged_config-heartbeats_ahead o meanwhile n elapsed gap slack claimed start j d short long small
      keeps h begun next =
    let p = merge_worker_pool_config o.worker_pool in
    let q = merge_reliable_queue_config o.reliable_queue in
    let at_most = interval_bounds p.job_timeout_ms (times_out o.worker_pool short) in
    heartbeats_ahead meanwhile n elapsed (heartbeat_interval p.job_timeout_ms) j q.ack_timeout_ms
      claimed start gap slack d keeps h begun next
      (omega (arith, at_most, small, acknowledges o.reliable_queue long))
