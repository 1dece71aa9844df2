-- ===== src/Facade/Progress.antt =====
-- From the submission of a group to its dispatch (BulkActionService.ts with WatcherService.ts), and the progress
-- that is reported meanwhile.
use nestjs_playground.Prelude.{
  ℕ, ◌+◌, ◌≤◌, ◌<◌, String, none, some, List, length, ◌≡◌, ap, ◌∙◌, length-map, arith,
}
use nestjs_playground.Watcher.StateMachine.{created, dispatched}
use nestjs_playground.Model.{str, group_status, to_status}
use nestjs_playground.Redis.{Redis, Db}
use nestjs_playground.Aggregator.Service.{Aggregator}
use nestjs_playground.Aggregator.StatusWrites.{status_of}
use nestjs_playground.Congestion.Control.{CongestionConfig}
use nestjs_playground.FairQueue.{pending_count}
use nestjs_playground.Watcher.Service.{
  WatcherStats, WatcherConfig, all_registered, is_timed_out, check_group,
}
use nestjs_playground.Watcher.Service.LifeCycle.{registered, check_group_advances}
use nestjs_playground.Facade.{BulkJob, SubmitBulkJobsRequest, submit_bulk_jobs, get_group_progress}
use nestjs_playground.Facade.Submission.{IsNew, submit_bulk_jobs_lem}

module _ ⦃r : Redis⦄ (alpha group_timeout_ms now : ℕ) (q : SubmitBulkJobsRequest) (d : Db) where
  -- Right after `submitBulkJobs` of at least one job for a group that nothing is stored of, `getGroupProgress`
  -- reports the number of jobs submitted, all of them pending and none done, 0 percent and CREATED.
  pub submit-get_group_progress :
      (c : CongestionConfig)
      → IsNew q.group_id d
      → 0 < length q.jobs
      → let p =
          get_group_progress c q.group_id (submit_bulk_jobs alpha group_timeout_ms q now d).1 in
        (p.total_jobs ≡ length q.jobs)
        × (p.pending_in_queue ≡ length q.jobs)
        × (p.done_jobs ≡ 0)
        × (p.progress_percent ≡ 0)
        × (p.status ≡ some created)
  unfolding get_group_progress pending_count
  submit-get_group_progress c h some_job =
      let (n, total, noted, finished, jobs, begun, watched, timed) =
        submit_bulk_jobs_lem alpha group_timeout_ms now q d h in
      (
        total ∙ n,
        ap length jobs ∙ length-map (λ (j : BulkJob). str j.job_id) q.jobs,
        finished,
        ground (arith, total, n, finished),
        ap to_status (begun (omega (arith, n))),
      )

  -- A group that was submitted whole, of at least one job, and that nothing was stored of before, is moved on
  -- to DISPATCHED by the watcher's next check of it, if that comes before the group times out and nobody
  -- else acts; the move is counted.
  pub submit-check_group :
      {U : Type 0} (stringify : U → String) (aggregators : List (Aggregator U)) (w : WatcherConfig)
      (sleep : Db → Db) (token inner_token : String) (later : ℕ) (s : WatcherStats)
      → IsNew q.group_id d
      → 0 < length q.jobs
      → later ≤ now + group_timeout_ms
      → let d' = (submit_bulk_jobs alpha group_timeout_ms q now d).1 in
        let (error, (s', d'')) =
          check_group stringify aggregators w sleep
            (λ e. e)
            token
            inner_token
            later
            q.group_id
            s
            d' in
        (error ≡ none)
        × (status_of q.group_id d'' ≡ some (group_status dispatched))
        × (s'.transitions_triggered ≡ s.transitions_triggered + 1)
  unfolding all_registered is_timed_out
  submit-check_group stringify aggregators w sleep token inner_token later s h some_job soon =
      let (n, total, noted, finished, jobs, begun, watched, timed) =
        submit_bulk_jobs_lem alpha group_timeout_ms now q d h in
      let d' = (submit_bulk_jobs alpha group_timeout_ms q now d).1 in
      check_group_advances stringify aggregators w sleep token inner_token later q.group_id created
        dispatched s d' (begun (omega (arith, n))) (ground (arith, timed))
        (registered (ground (arith, noted, total, n)))
