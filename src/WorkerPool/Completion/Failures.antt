-- ===== src/WorkerPool/Completion/Failures.antt =====
-- The failure of a job: another attempt, or the dead letter queue (WorkerPoolService.ts, handleJobFailed
-- and handleDeadLetter).
use nestjs_playground.Prelude.{
  ℕ, ◌+◌, ◌≤◌, ◌<◌, Bool, true, ltb, String, some, [], ◌∷◌, ◌++◌, ◌≡◌, subst, sym, ◌∙◌, inl, inr,
  ◌⊎◌, Bool-cases, ltb→lt, arith,
}
use nestjs_playground.Model.{
  dead_letter, job_status, pending, job_failed, job_completed, increment, IsCount,
  to_number-increment,
}
use nestjs_playground.Keys.{
  Key, Field, group_meta, job, dead_letter_queue, non_ready_queue, ready_queue, status, done_jobs,
  failed_count, success_count, retry_count,
}
use nestjs_playground.Redis.{
  Redis, Db, hset, rpush, millis, hget, lrange, zrange, score_in, store_laws,
}
use nestjs_playground.Aggregator.Scripts.{counter, record_job_result}
use nestjs_playground.Aggregator.Scripts.Counting.{ack_lem, record_writes-Recorded}
use nestjs_playground.Aggregator.Scripts.Frame.{ack-Acked, record_job_result-Kept}
use nestjs_playground.Backpressure.Admission.{BackpressureConfig, requeue}
use nestjs_playground.Congestion.Control.Frame.{Beside-add}
use nestjs_playground.Congestion.Control.Schedule.{add_to_non_ready-DueAt}
use nestjs_playground.FairQueue.{Job}
use nestjs_playground.WorkerPool.Completion.{
  handle_job_failed, handle_dead_letter, dead_letter_entry, dead_letter_result,
}

module _ ⦃r : Redis⦄ where
  -- A job that waits for another attempt.
  pub record Requeued (x : Job) (now : ℕ) (before after : Db) : Type 0 where
    pub due :
        (wait : ℕ) × (score_in x.id (zrange non_ready_queue after) ≡ some (millis (now + wait)))
    pub again : hget (job x.id) status after ≡ some (job_status pending)
    pub attempts :
        hget (job x.id) retry_count after ≡ some (increment (hget (job x.id) retry_count before))
    pub lists : (k : Key) → lrange k after ≡ lrange k before
    pub counters :
        (f : Field) → hget (group_meta x.group_id) f after ≡ hget (group_meta x.group_id) f before

  -- A job that is given up.
  pub record Buried (x : Job) (message : String) (now : ℕ) (before after : Db) : Type 0 where
    pub listed :
        lrange dead_letter_queue after
        ≡ lrange dead_letter_queue before ++ dead_letter (dead_letter_entry x message now) ∷ []
    pub ready : lrange ready_queue after ≡ lrange ready_queue before
    pub waiting : zrange non_ready_queue after ≡ zrange non_ready_queue before
    pub failures :
        counter x.group_id failed_count after ≡ counter x.group_id failed_count before + 1
    pub successes : counter x.group_id success_count after ≡ counter x.group_id success_count before
    pub finished : counter x.group_id done_jobs after ≡ counter x.group_id done_jobs before + 1
    pub marked : hget (job x.id) status after ≡ some (job_status job_completed)

  pub Requeued-requeue :
      (c : BackpressureConfig) (fails : Bool) (x : Job) (message : String) (now max_retry_count : ℕ)
      (d : Db)
      → ltb x.retry_count max_retry_count ≡ true
      → Requeued x now d (handle_job_failed max_retry_count c fails x message now d)
  unfolding handle_job_failed requeue
  Requeued-requeue c fails x message now max_retry_count d e =
      let beside = Beside-add c.congestion fails x.id x.group_id now _ in
      rw (e, handle_job_failed)
        (record {
          due = (_, (add_to_non_ready-DueAt c.congestion fails x.id x.group_id now _).due);
          again = beside.hashes _ _ (λ p. cc) ∙ simp store_laws (ground arith);
          attempts = beside.hashes _ _ (λ p. cc) ∙ simp store_laws (ground arith);
          lists = λ k. beside.lists k ∙ simp store_laws;
          counters = λ f. beside.hashes _ f (λ p. cc) ∙ simp store_laws (ground arith);
        })

  -- The store of a job that is given up, before its result is recorded.
  abbrev given_up : Job → String → ℕ → Db → Db
  given_up x message now d =
      hset (job x.id) status (job_status job_failed)
        (rpush dead_letter_queue (dead_letter (dead_letter_entry x message now)) d)

  meta-given_up :
      (x : Job) (message : String) (now : ℕ) (d : Db) (f : Field)
      → hget (group_meta x.group_id) f (given_up x message now d) ≡ hget (group_meta x.group_id) f d
  meta-given_up x message now d f = simp store_laws (ground arith)

  pub Buried-dead_letter :
      (x : Job) (message : String) (now : ℕ) (d : Db)
      → IsCount (hget (group_meta x.group_id) failed_count d)
      → IsCount (hget (group_meta x.group_id) done_jobs d)
      → Buried x message now d (handle_dead_letter x message now d)
  unfolding handle_dead_letter record_job_result dead_letter_result
  Buried-dead_letter x message now d hf hd =
      let g = x.group_id in
      let y = dead_letter_result x message in
      let m = given_up x message now d in
      let a = ack-Acked x.id g (record_job_result y now m).1 in
      let w = record_writes-Recorded y now m in
      let k = record_job_result-Kept y now m in
      let done =
        k.hashes (group_meta g) done_jobs (λ p. cc) (λ p. cc) (λ p. cc) (λ p. cc)
        ∙ meta-given_up x message now d done_jobs in
      let (counted, ends, set_to, marked) =
        ack_lem x.id g (record_job_result y now m).1 (subst IsCount (sym done) hd) in
      record {
        listed =
            a.lists dead_letter_queue
            ∙ (k.lists dead_letter_queue (λ p. cc) ∙ simp store_laws (ground arith));
        ready =
            a.lists ready_queue ∙ (k.lists ready_queue (λ p. cc) ∙ simp store_laws (ground arith));
        waiting = a.sorted_sets non_ready_queue ∙ (k.sorted_sets non_ready_queue ∙ simp store_laws);
        failures = ground (
          arith,
          a.hashes (group_meta g) failed_count (λ p. cc) (λ p. cc),
          w.failures,
          meta-given_up x message now d failed_count,
          to_number-increment _ hf,
        );
        successes = ground (
          arith,
          a.hashes (group_meta g) success_count (λ p. cc) (λ p. cc),
          w.successes,
          meta-given_up x message now d success_count,
        );
        finished = ground (arith, counted, done);
        marked = marked;
      }

  -- `handleJobFailed`, where the counters of the group are counts, ends in one of two ways. With attempts
  -- left, the job is PENDING, due in the non-ready queue with its retry count one higher, and no list or
  -- counter of its group changes. With none left, exactly one entry is appended to the dead letter queue, the
  -- group counts one more failed and one more done job, neither queue changes, and the job is marked COMPLETED.
  pub handle_job_failed_lem :
      (c : BackpressureConfig) (fails : Bool) (x : Job) (message : String) (now max_retry_count : ℕ)
      (d : Db)
      → IsCount (hget (group_meta x.group_id) failed_count d)
      → IsCount (hget (group_meta x.group_id) done_jobs d)
      → let d' = handle_job_failed max_retry_count c fails x message now d in
        ((x.retry_count < max_retry_count) × Requeued x now d d')
        ⊎ ((max_retry_count ≤ x.retry_count) × Buried x message now d d')
  unfolding handle_job_failed
  handle_job_failed_lem c fails x message now max_retry_count d hf hd =
      elim (Bool-cases (ltb x.retry_count max_retry_count)) [
        | inl e ↦ inl (
          ltb→lt x.retry_count max_retry_count e,
          Requeued-requeue c fails x message now max_retry_count d e,
        )
        | inr e ↦
            inr (ground arith, rw (e, handle_job_failed) (Buried-dead_letter x message now d hf hd))
      ]
