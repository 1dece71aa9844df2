-- ===== src/WorkerPool/Pool/Processing.antt =====
-- The pool's handlers leave the queue of jobs in flight alone (WorkerPoolService.ts): the end of a tick of a
-- worker with these handlers, if it throws no error.
use nestjs_playground.Prelude.{
  ℕ, ◌+◌, Bool, ltb, String, none, some, List, ◌≡◌, ◌∙◌, inl, inr, Bool-cases, arith,
}
use nestjs_playground.Model.{JobProcessorResponse}
use nestjs_playground.Keys.{in_flight_queue}
use nestjs_playground.Redis.{Redis, Db, zrange, score_in, store_laws}
use nestjs_playground.Aggregator.Scripts.{ack, record_job_result}
use nestjs_playground.Aggregator.Scripts.Frame.{ack-Acked, record_job_result-Kept}
use nestjs_playground.Aggregator.Service.{Aggregator}
use nestjs_playground.Aggregator.Service.Frame.{Quiet, zrange-finalize_group}
use nestjs_playground.Backpressure.Admission.{BackpressureConfig, requeue}
use nestjs_playground.Congestion.Control.{reset_group_stats}
use nestjs_playground.Congestion.Control.Frame.{Beside-add}
use nestjs_playground.FairQueue.{Job}
use nestjs_playground.ReliableQueue.InFlight.{DequeueResult, dequeue}
use nestjs_playground.Watcher.Service.{WatcherConfig}
use nestjs_playground.WorkerPool.Completion.{
  handle_job_complete, handle_job_failed, handle_dead_letter, dead_letter_result,
}
use nestjs_playground.WorkerPool.Worker.{JobProcessor, WorkerOptions, Meanwhile}
use nestjs_playground.WorkerPool.Worker.Tick.{tick_releases}
use nestjs_playground.WorkerPool.Worker.Ending.{Ended, tick_ends}
use nestjs_playground.WorkerPool.Pool.{pool_tick}

module _ ⦃r : Redis⦄ where
  recorded_and_acked :
      (x : JobProcessorResponse) (j g : String) (now : ℕ) (d : Db)
      → zrange in_flight_queue (ack j g (record_job_result x now d).1).1 ≡ zrange in_flight_queue d
  recorded_and_acked x j g now d =
      (ack-Acked j g (record_job_result x now d).1).sorted_sets in_flight_queue
      ∙ (record_job_result-Kept x now d).sorted_sets in_flight_queue

  pub in_flight-failed :
      (max_retry_count : ℕ) (c : BackpressureConfig) (fails : Bool) (x : Job) (message : String)
      (now : ℕ) (d : Db)
      → zrange in_flight_queue (handle_job_failed max_retry_count c fails x message now d)
        ≡ zrange in_flight_queue d
  unfolding handle_job_failed handle_dead_letter requeue
  in_flight-failed max_retry_count c fails x message now d =
      elim (Bool-cases (ltb x.retry_count max_retry_count)) [
        | inl e ↦
            rw (e, handle_job_failed)
              ((Beside-add c.congestion fails x.id x.group_id now _).sorted_sets in_flight_queue
                  (λ p. cc)
                ∙ simp store_laws)
        | inr e ↦
            rw (e, handle_job_failed)
              (recorded_and_acked (dead_letter_result x message) x.id x.group_id now _
                ∙ simp store_laws)
      ]

module _ ⦃r : Redis⦄ {U : Type 0} (stringify : U → String) (aggregators : List (Aggregator U))
    (w : WatcherConfig) (c : BackpressureConfig) (fails : Bool) (max_retry_count : ℕ)
    (sleep : Db → Db) (token : String) where
  in_flight_complete :
      (ttl retries : ℕ) (x : JobProcessorResponse) (now : ℕ) (d : Db)
      → Quiet in_flight_queue sleep
      → zrange in_flight_queue
          (handle_job_complete stringify aggregators sleep token ttl retries x now d)
        ≡ zrange in_flight_queue d
  unfolding handle_job_complete reset_group_stats
  in_flight_complete ttl retries x now d q =
      let first = recorded_and_acked x x.job_id x.group_id now d in
      elim (Bool-cases (ack x.job_id x.group_id (record_job_result x now d).1).0) [
        | inl e ↦
            rw (e, handle_job_complete)
              (zrange-finalize_group stringify aggregators in_flight_queue sleep x.group_id token
                  ttl retries now _ (λ p. cc) q
                ∙ (simp store_laws (ground arith) ∙ first))
        | inr e ↦ rw (e, handle_job_complete) first
      ]

  -- A tick of a worker of the pool that took a job and throws no error leaves that job out of flight, whatever
  -- other clients do between its look at the ready queue and the claim, before the reading of the job and
  -- during the processing; from the release of the job on they act only during a wait for the
  -- aggregation lock, and there they leave the jobs in flight alone. It ends in one of three ways: the job is
  -- missing and is acknowledged; or its result is a success or asks for no other attempt, it is
  -- acknowledged and `handleJobComplete` has run on that result; or it failed, is released, and
  -- `handleJobFailed` has run on the job with the message of the error.
  pub pool_tick_releases :
      (processors : List JobProcessor) (o : WorkerOptions) (others : Db → Db)
      (meanwhile : Meanwhile) (now : ℕ) (d : Db) (t : DequeueResult)
      → Quiet in_flight_queue sleep
      → (dequeue o.claim others now d).0 ≡ some t
      → (pool_tick stringify aggregators w c fails max_retry_count sleep token processors o others
          meanwhile now d).0
        ≡ none
      → let d' =
          (pool_tick stringify aggregators w c fails max_retry_count sleep token processors o others
            meanwhile now d).1 in
        (score_in t.job_id (zrange in_flight_queue d') ≡ none)
        × Ended
            (handle_job_complete stringify aggregators sleep token w.lock_ttl_ms w.lock_retry_count)
            (handle_job_failed max_retry_count c fails)
            processors
            o
            meanwhile
            t.job_id
            (now + meanwhile.loading_ms)
            (meanwhile.before_load (dequeue o.claim others now d).1)
            d'
  unfolding pool_tick
  pool_tick_releases processors o others meanwhile now d t q h k = (
    tick_releases
        (handle_job_complete stringify aggregators sleep token w.lock_ttl_ms w.lock_retry_count)
        (handle_job_failed max_retry_count c fails)
        (record {
          complete = λ x now d. in_flight_complete w.lock_ttl_ms w.lock_retry_count x now d q;
          failed = λ x m now d. in_flight-failed max_retry_count c fails x m now d;
        })
        processors o others meanwhile now d t h k,
    tick_ends
        (handle_job_complete stringify aggregators sleep token w.lock_ttl_ms w.lock_retry_count)
        (handle_job_failed max_retry_count c fails) processors o meanwhile others now d t h k,
  )
