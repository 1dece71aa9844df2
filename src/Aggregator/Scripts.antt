-- ===== src/Aggregator/Scripts.antt =====
-- The scripts libs/bulk-action/src/lua/transition-status.lua, record-job-result.lua and ack.lua, with
-- the methods that call them: AggregatorService.transition, AggregatorService.recordJobResult and
-- FairQueueService.ack. A script runs whole, as one step of the server.
pub mod Counting
pub mod Frame
use nestjs_playground.Prelude.{ℕ, ◌+◌, Bool, true, false, ◌&&◌, leb, ltb, if◌then◌else◌, String}
use nestjs_playground.Watcher.StateMachine.{GroupStatus, aggregating, completed, failed}
use nestjs_playground.Model.{
  num, group_status, job_status, job_completed, job_result, to_number, is_status,
  JobProcessorResponse,
}
use nestjs_playground.Keys.{
  Field, group_meta, group_job_results, job, status, total_jobs, done_jobs, success_count,
  failed_count, first_job_started_at, last_updated_at, aggregation_start_at, completed_at,
  failed_at,
}
use nestjs_playground.Redis.{Redis, Db, hget, hset, hincr, hsetnx, rpush}

pub record RecordResult : Type 0 where
  pub is_group_complete : Bool
  pub success_count : ℕ
  pub failed_count : ℕ
  pub total_jobs : ℕ

module _ ⦃r : Redis⦄ where
  -- Step 3 of transition-status.lua.
  unfoldable pub stamp : String → GroupStatus → ℕ → Db → Db
  stamp g aggregating now d = hset (group_meta g) aggregation_start_at (num now) d
  stamp g completed now d = hset (group_meta g) completed_at (num now) d
  stamp g failed now d = hset (group_meta g) failed_at (num now) d
  stamp g _ now d = d

  unfoldable pub transition : String → GroupStatus → GroupStatus → ℕ → Db → Bool × Db
  unfolding stamp
  transition g from to now d =
      if is_status (hget (group_meta g) status d) from
      then (
        true,
        stamp g to now (
            hset (group_meta g) last_updated_at (num now)
              (hset (group_meta g) status (group_status to) d)),
      )
      else (false, d)

  -- Steps 1 to 4 of record-job-result.lua.
  unfoldable pub record_writes : JobProcessorResponse → ℕ → Db → Db
  record_writes response now d =
      let meta = group_meta response.group_id in
      let counted = hincr meta (if response.success then success_count else failed_count) d in
      let listed = rpush (group_job_results response.group_id) (job_result response) counted in
      hset meta last_updated_at (num now) (hsetnx meta first_job_started_at (num now) listed)

  abbrev pub counter : String → Field → Db → ℕ
  counter g f d = to_number (hget (group_meta g) f d)

  unfoldable pub record_job_result : JobProcessorResponse → ℕ → Db → RecordResult × Db
  unfolding record_writes
  record_job_result response now d =
      let d' = record_writes response now d in
      let successes = counter response.group_id success_count d' in
      let failures = counter response.group_id failed_count d' in
      let total = counter response.group_id total_jobs d' in
      (
        record {
          is_group_complete = leb total (successes + failures) && ltb 0 total;
          success_count = successes;
          failed_count = failures;
          total_jobs = total;
        },
        d',
      )

  -- Steps 1 and 2 of ack.lua.
  unfoldable pub ack_writes : String → String → Db → Db
  ack_writes job_id group_id d =
      hincr (group_meta group_id) done_jobs (hset (job job_id) status (job_status job_completed) d)

  unfoldable pub ack : String → String → Db → Bool × Db
  unfolding ack_writes
  ack job_id group_id d =
      let d' = ack_writes job_id group_id d in
      if leb (counter group_id total_jobs d') (counter group_id done_jobs d')
      then (true, hset (group_meta group_id) status (group_status aggregating) d')
      else (false, d')
