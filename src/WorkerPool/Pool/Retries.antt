-- ===== src/WorkerPool/Pool/Retries.antt =====
-- A job whose processing fails goes back (Worker.ts with WorkerPoolService.ts, from the ready queue to the
-- non-ready queue).
use nestjs_playground.Prelude.{
  ℕ, ◌+◌, ◌<◌, Bool, String, none, some, List, ◌∷◌, ◌≡◌, ◌∙◌, refl, ap, sym, subst, inl, inr,
  Option-cases, arith,
}
use nestjs_playground.Model.{Value, str, job_status, pending, increment, JobProcessorResponse}
use nestjs_playground.Keys.{
  ready_queue, non_ready_queue, in_flight_queue, job, dead_letter_queue, status, retry_count,
}
use nestjs_playground.Redis.{Redis, Db, millis, hget, lrange, zrange, score_in}
use nestjs_playground.Lock.{returns, Outcome-cases}
use nestjs_playground.FairQueue.{Job}
use nestjs_playground.Aggregator.Service.{Aggregator}
use nestjs_playground.Watcher.Service.{WatcherConfig}
use nestjs_playground.WorkerPool.Pool.{pool_tick}
use nestjs_playground.WorkerPool.Pool.Processing.{in_flight-failed}
use nestjs_playground.WorkerPool.Worker.Tick.{acked}
use nestjs_playground.WorkerPool.Worker.Ending.{run_of, Fails, run_of-some}
use nestjs_playground.Backpressure.Admission.{BackpressureConfig}
use nestjs_playground.ReliableQueue.InFlight.{nack}
use nestjs_playground.ReliableQueue.InFlight.Metadata.{dequeue-Taken}
use nestjs_playground.WorkerPool.Completion.{handle_job_complete, handle_job_failed}
use nestjs_playground.WorkerPool.Completion.Failures.{Requeued-requeue}
use nestjs_playground.WorkerPool.Worker.{
  Processing, JobProcessor, WorkerOptions, heartbeats, settle, execute, tick, load_job,
  processor_for, execute_with_timeout, heartbeat_interval, unregistered, message_of,
}
use nestjs_playground.WorkerPool.Worker.Aside.{
  alone, all_alone, Aside, Aside-heartbeats, Aside-nack, popped, hget-dequeue, lrange-dequeue,
  load_job-dequeue,
}

module _ ⦃r : Redis⦄ where
  -- A failed job after its tick.
  pub record Returned (x : Job) (rest : List Value) (before after : Db) : Type 0 where
    pub left : lrange ready_queue after ≡ rest
    pub released : score_in x.id (zrange in_flight_queue after) ≡ none
    pub due : (time : ℕ) × (score_in x.id (zrange non_ready_queue after) ≡ some (millis time))
    pub again : hget (job x.id) status after ≡ some (job_status pending)
    pub attempts :
        hget (job x.id) retry_count after ≡ some (increment (hget (job x.id) retry_count before))
    pub buried : lrange dead_letter_queue after ≡ lrange dead_letter_queue before

module _ ⦃r : Redis⦄ (on_job_complete : JobProcessorResponse → ℕ → Db → Db)
    (on_job_failed : Job → String → ℕ → Db → Db) where
  settle-Fails :
      (j : String) (x : Job) (run : Processing) (start : ℕ) (d : Db)
      → Fails run.outcome
      → (message : String) × (settle on_job_complete on_job_failed j x run start d
          ≡ on_job_failed x message (start + run.elapsed_ms) (nack j d))
  unfolding settle
  settle-Fails j x run start d h = elim (Outcome-cases run.outcome) [
    | inr (e, p) ↦ (e, rw (p, settle))
    | inl (out, p) ↦
        let (failed, again) = rw p at h in (message_of out.error, rw (p, failed, again, settle))
  ]

  -- What a failing job is handed to, and on which store.
  record Handed (j : String) (x : Job) (before after : Db) : Type 0 where
    pub message : String
    pub time : ℕ
    pub store : Db
    pub aside : Aside j before store
    pub handled : after ≡ on_job_failed x message time (nack j store)

  execute-Handed :
      (loading : ℕ) (late : ℕ → ℕ) (beats : ℕ) (processors : List JobProcessor) (o : WorkerOptions)
      (j : String) (x : Job) (start : ℕ) (d : Db)
      → Fails (run_of processors o.job_timeout_ms x).outcome
      → Handed j x d (
          execute on_job_complete on_job_failed processors o
            (all_alone loading late beats)
            j
            x
            start
            d)
  unfolding execute
  execute-Handed loading late beats processors o j x start d h =
      elim (Option-cases (processor_for processors x.processor_type)) [
        | inl e ↦ record {
          message = (settle-Fails j x unregistered start d tt).0;
          time = start + 0;
          store = d;
          aside = record { hashes = λ k f h. refl; lists = λ k h. refl };
          handled = rw (e, execute) (settle-Fails j x unregistered start d tt).1;
        }
        | inr (p, e) ↦
            let run = execute_with_timeout o.job_timeout_ms p x in
            let interval = heartbeat_interval o.job_timeout_ms in
            let beaten =
              heartbeats (all_alone loading late beats) beats interval j o.claim.ack_timeout_ms
                start d in
            record {
              message =
                  (settle-Fails j x run start beaten
                    (subst Fails (run_of-some processors o.job_timeout_ms x p e) h)).0;
              time = start + run.elapsed_ms;
              store = beaten;
              aside =
                  Aside-heartbeats loading late beats beats interval j o.claim.ack_timeout_ms start
                    d;
              handled =
                  rw (e, execute)
                    (settle-Fails j x run start beaten
                      (subst Fails (run_of-some processors o.job_timeout_ms x p e) h)).1;
            }
      ]

module _ ⦃r : Redis⦄ {U : Type 0} (stringify : U → String) (aggregators : List (Aggregator U))
    (w : WatcherConfig) (c : BackpressureConfig) (fails : Bool) (max_retry_count : ℕ)
    (sleep : Db → Db) (token : String) where
  -- A tick of a worker of the pool while nobody else acts, whenever its heartbeats come, on a job at the head of the ready queue with
  -- attempts left, whose processing fails: there is no processor for it, it throws, it takes longer than the
  -- time-out, or its result asks for another attempt. The tick throws no error, and the job has left the ready
  -- queue and the jobs in flight, is PENDING and due in the non-ready queue with its retry count one
  -- higher, and no entry is put into the dead letter queue.
  pub pool_tick_retries :
      (loading : ℕ) (late : ℕ → ℕ) (beats : ℕ) (processors : List JobProcessor) (o : WorkerOptions)
      (now : ℕ) (x : Job) (rest : List Value) (d : Db)
      → lrange ready_queue d ≡ str x.id ∷ rest
      → load_job x.id d ≡ some (returns x)
      → x.retry_count < max_retry_count
      → Fails (run_of processors o.job_timeout_ms x).outcome
      → let (error, d') =
          pool_tick stringify aggregators w c fails max_retry_count sleep token processors o alone
            (all_alone loading late beats)
            now
            d in
        (error ≡ none) × Returned x rest d d'
  unfolding pool_tick tick nack
  pool_tick_retries loading late beats processors o now x rest d head found left h =
      let taken = dequeue-Taken o.claim alone now x.id x.id rest rest d head head in
      let loaded = load_job-dequeue o.claim now x.id rest d head ∙ found in
      let handed =
        execute-Handed
          (handle_job_complete stringify aggregators sleep token w.lock_ttl_ms w.lock_retry_count)
          (handle_job_failed max_retry_count c fails) loading late beats processors o x.id x
          (now + loading) (popped o.claim now d) h in
      let e = handed.store in
      let nacked = Aside-nack x.id e in
      let step =
        Requeued-requeue c fails x handed.message handed.time max_retry_count (nack x.id e)
          (ground arith) in
      let back : Returned x rest d
          (handle_job_failed max_retry_count c fails x handed.message handed.time (nack x.id e)) =
        record {
          left =
              step.lists ready_queue
              ∙ (nacked.lists ready_queue (λ p. cc)
                  ∙ (handed.aside.lists ready_queue (λ p. cc) ∙ taken.popped));
          released =
              rw
                (in_flight-failed max_retry_count c fails x handed.message handed.time
                  (nack x.id e))
                (acked x.id e);
          due = (_, step.due.1);
          again = step.again;
          attempts =
              step.attempts
              ∙ ap (λ v. some (increment v))
                  (nacked.hashes (job x.id) retry_count (λ p. cc)
                    ∙ (handed.aside.hashes (job x.id) retry_count (λ p. cc)
                        ∙ hget-dequeue o.claim now x.id rest d head x.id retry_count));
          buried =
              step.lists dead_letter_queue
              ∙ (nacked.lists dead_letter_queue (λ p. cc)
                  ∙ (handed.aside.lists dead_letter_queue (λ p. cc)
                      ∙ lrange-dequeue o.claim now x.id rest d head dead_letter_queue (λ p. cc)));
        } in
      rw (taken.result, tick, loaded) (refl, subst (Returned x rest d) (sym handed.handled) back)
