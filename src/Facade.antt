-- ===== src/Facade.antt =====
-- libs/bulk-action/src/BulkActionService.ts: the entry points of the job system. No other client acts between
-- the calls of a method. `getPoolStatus` is in WorkerPool.Pool, `getGroupResult` and `getAggregatorProgress` are
-- Aggregator.Service's get_result and get_progress.
pub mod Submission
pub mod Progress
pub mod Lookup
use nestjs_playground.Prelude.{
  ℕ, ◌+◌, ◌*◌, ◌/◌, ltb, if◌then◌else◌, String, Option, none, some, List, [], ◌∷◌, length,
}
use nestjs_playground.Watcher.StateMachine.{GroupStatus}
use nestjs_playground.Model.{
  num, PriorityLevel, high_level, normal_level, low_level, to_number, to_status,
}
use nestjs_playground.Keys.{
  group_meta, fair_queue, ready_queue, non_ready_queue, dead_letter_queue, watcher_active_groups,
  total_jobs, done_jobs, registered_jobs, timeout_at, status,
}
use nestjs_playground.Redis.{Redis, Db, hget, lrange, zrange, hset, sadd}
use nestjs_playground.Lock.{Outcome}
use nestjs_playground.Congestion.Backoff.{CongestionLevel}
use nestjs_playground.Congestion.Control.{CongestionConfig, get_congestion_state}
use nestjs_playground.FairQueue.{BulkActionRequest, Job, enqueue, pending_count}
use nestjs_playground.WorkerPool.Worker.{load_job}

pub record BulkJob : Type 0 where
  pub job_id : String
  pub payload : String

pub record SubmitBulkJobsRequest : Type 0 where
  pub group_id : String
  pub processor_type : String
  pub jobs : List BulkJob
  pub base_priority : Option ℕ
  pub priority_level : Option PriorityLevel

pub record CongestionProgress : Type 0 where
  pub congestion_level : CongestionLevel
  pub non_ready_count : ℕ
  pub last_backoff_ms : ℕ

-- `none` is the status UNKNOWN.
pub record GroupProgress : Type 0 where
  pub group_id : String
  pub total_jobs : ℕ
  pub done_jobs : ℕ
  pub pending_in_queue : ℕ
  pub progress_percent : ℕ
  pub status : Option GroupStatus
  pub congestion : CongestionProgress

pub record QueueStats : Type 0 where
  pub high_priority_groups : ℕ
  pub normal_priority_groups : ℕ
  pub low_priority_groups : ℕ
  pub total_groups : ℕ

pub record QueueDepths : Type 0 where
  pub fair_queues : QueueStats
  pub ready : ℕ
  pub non_ready : ℕ
  pub dead_letters : ℕ

-- What `submitBulkJobs` hands to the fair queue for one job.
unfoldable pub request_for : SubmitBulkJobsRequest → BulkJob → BulkActionRequest
request_for q j = record {
  job_group_id = q.group_id;
  job_id = j.job_id;
  job_processor_type = q.processor_type;
  payload = j.payload;
  base_priority = q.base_priority;
  priority_level = q.priority_level;
}

module _ ⦃r : Redis⦄ where
  unfoldable pub submit_job : ℕ → BulkActionRequest → ℕ → Db → Db
  submit_job alpha q now d = sadd watcher_active_groups q.job_group_id (enqueue alpha q now d)

  -- The loop of `submitBulkJobs`.
  unfoldable pub enqueue_all : ℕ → SubmitBulkJobsRequest → List BulkJob → ℕ → Db → Db
  unfolding request_for
  enqueue_all alpha q [] now d = d
  enqueue_all alpha q (j ∷ js) now d =
      enqueue_all alpha q js now (enqueue alpha (request_for q j) now d)

  unfoldable pub submit_bulk_jobs : ℕ → ℕ → SubmitBulkJobsRequest → ℕ → Db → ℕ × Db
  unfolding enqueue_all
  submit_bulk_jobs alpha group_timeout_ms q now d =
      let queued = enqueue_all alpha q q.jobs now d in
      let counted = hset (group_meta q.group_id) registered_jobs (num (length q.jobs)) queued in
      let watched = sadd watcher_active_groups q.group_id counted in
      (
        length q.jobs,
        hset (group_meta q.group_id) timeout_at (num (now + group_timeout_ms)) watched,
      )

  unfoldable pub get_job_status : String → Db → Option (Outcome Job)
  get_job_status j d = load_job j d

  unfoldable pub get_group_progress : CongestionConfig → String → Db → GroupProgress
  get_group_progress c g d =
      let total = to_number (hget (group_meta g) total_jobs d) in
      let finished = to_number (hget (group_meta g) done_jobs d) in
      let state = get_congestion_state c g d in
      record {
        group_id = g;
        total_jobs = total;
        done_jobs = finished;
        pending_in_queue = pending_count g d;
        progress_percent = if ltb 0 total then finished * 100 / total else 0;
        status = to_status (hget (group_meta g) status d);
        congestion = record {
          congestion_level = state.congestion_level;
          non_ready_count = state.non_ready_count;
          last_backoff_ms = state.last_backoff_ms;
        };
      }

  unfoldable pub get_queue_stats : Db → QueueStats
  get_queue_stats d =
      let high = length (zrange (fair_queue high_level) d) in
      let normal = length (zrange (fair_queue normal_level) d) in
      let low = length (zrange (fair_queue low_level) d) in
      record {
        high_priority_groups = high;
        normal_priority_groups = normal;
        low_priority_groups = low;
        total_groups = high + normal + low;
      }

  unfoldable pub get_queue_depths : Db → QueueDepths
  unfolding get_queue_stats
  get_queue_depths d = record {
    fair_queues = get_queue_stats d;
    ready = length (lrange ready_queue d);
    non_ready = length (zrange non_ready_queue d);
    dead_letters = length (lrange dead_letter_queue d);
  }
