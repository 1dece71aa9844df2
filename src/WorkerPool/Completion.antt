-- ===== src/WorkerPool/Completion.antt =====
-- libs/bulk-action/src/worker-pool/WorkerPoolService.ts: what becomes of a job that a worker is done with. No
-- other client acts between the calls of a handler, but `sleep` is what others do during a wait for the
-- aggregation lock. A handler catches and logs what its calls throw, so it only has an effect.
pub mod Results
pub mod Failures
pub mod Attempts
use nestjs_playground.Prelude.{ℕ, Bool, false, ltb, if◌then◌else◌, String, none, some, List}
use nestjs_playground.Model.{
  dead_letter, job_status, pending, job_failed, DeadLetterEntry, JobProcessorResponse,
}
use nestjs_playground.Keys.{job, dead_letter_queue, status, retry_count}
use nestjs_playground.Redis.{Redis, Db, hset, hincr, rpush}
use nestjs_playground.Aggregator.Scripts.{record_job_result, ack}
use nestjs_playground.Aggregator.Service.{Aggregator, finalize_group}
use nestjs_playground.Backpressure.Admission.{BackpressureConfig, requeue}
use nestjs_playground.Congestion.Control.{reset_group_stats}
use nestjs_playground.FairQueue.{Job}

-- The entry and the result of a job that is given up.
unfoldable pub dead_letter_entry : Job → String → ℕ → DeadLetterEntry
dead_letter_entry x message now = record {
  job_id = x.id;
  group_id = x.group_id;
  retry_count = x.retry_count;
  error = message;
  failed_at = now;
}

unfoldable pub dead_letter_result : Job → String → JobProcessorResponse
dead_letter_result x message = record {
  job_id = x.id;
  group_id = x.group_id;
  success = false;
  output = "";
  error = some (record { message = message; code = none; retryable = false });
  duration_ms = 0;
  processor_type = x.processor_type;
}

module _ ⦃r : Redis⦄ where
  unfoldable pub handle_dead_letter : Job → String → ℕ → Db → Db
  unfolding dead_letter_entry dead_letter_result
  handle_dead_letter x message now d =
      let listed = rpush dead_letter_queue (dead_letter (dead_letter_entry x message now)) d in
      let marked = hset (job x.id) status (job_status job_failed) listed in
      let recorded = (record_job_result (dead_letter_result x message) now marked).1 in
      (ack x.id x.group_id recorded).1

  unfoldable pub handle_job_failed : ℕ → BackpressureConfig → Bool → Job → String → ℕ → Db → Db
  unfolding handle_dead_letter
  handle_job_failed max_retry_count c script_fails x message now d =
      if ltb x.retry_count max_retry_count
      then requeue c script_fails now x.id x.group_id
          (hset (job x.id) status (job_status pending) (hincr (job x.id) retry_count d))
      else handle_dead_letter x message now d

module _ ⦃r : Redis⦄ {U : Type 0} (stringify : U → String) (aggregators : List (Aggregator U)) where
  unfoldable pub handle_job_complete :
      (Db → Db) → String → ℕ → ℕ → JobProcessorResponse → ℕ → Db → Db
  handle_job_complete sleep token ttl retries response now d =
      let recorded = (record_job_result response now d).1 in
      let (complete, d') = ack response.job_id response.group_id recorded in
      if complete
      then (finalize_group stringify aggregators (λ e. e) sleep token response.group_id ttl retries
          now (reset_group_stats response.group_id d')).1
      else d'
