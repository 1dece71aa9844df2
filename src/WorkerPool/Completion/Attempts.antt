-- ===== src/WorkerPool/Completion/Attempts.antt =====
-- A job that fails on every attempt (WorkerPoolService.ts, handleJobFailed, once for each attempt).
use nestjs_playground.Prelude.{
  ℕ, zero, suc, ◌+◌, ◌≤◌, Bool, false, ltb, String, some, List, [], ◌∷◌, ◌++◌, ◌≡◌, refl, ap, ap₂,
  subst, sym, ◌∙◌, arith,
}
use nestjs_playground.Model.{Value, num, dead_letter, to_number, increment, IsCount}
use nestjs_playground.Keys.{
  Key, Field, group_meta, job, dead_letter_queue, failed_count, done_jobs, retry_count,
}
use nestjs_playground.Redis.{Redis, Db, hget, lrange}
use nestjs_playground.Aggregator.Scripts.{counter}
use nestjs_playground.Backpressure.Admission.{BackpressureConfig}
use nestjs_playground.FairQueue.{Job}
use nestjs_playground.WorkerPool.Completion.{handle_job_failed, dead_letter_entry}
use nestjs_playground.WorkerPool.Completion.Failures.{Requeued-requeue, Buried-dead_letter}

module _ ⦃r : Redis⦄ (max_retry_count : ℕ) (c : BackpressureConfig) (fails : Bool)
    (message : ℕ → String) (clock : ℕ → ℕ) (x : Job) where
  -- The job as a worker loads it.
  abbrev loaded_at : Db → Job
  loaded_at d = record x { retry_count = to_number (hget (job x.id) retry_count d) }

  -- The handler after each of `n` attempts, every one on the job that is then stored.
  abbrev pub fail_times : ℕ → Db → Db
  fail_times zero d = d
  fail_times (suc n) d =
      let e = fail_times n d in
      handle_job_failed max_retry_count c fails (loaded_at e) (message n) (clock n) e

  record Waiting (n : ℕ) (before after : Db) : Type 0 where
    pub attempts : hget (job x.id) retry_count after ≡ some (num n)
    pub lists : (k : Key) → lrange k after ≡ lrange k before
    pub counters :
        (f : Field) → hget (group_meta x.group_id) f after ≡ hget (group_meta x.group_id) f before

  Waiting-fail_times :
      (n : ℕ) (d : Db)
      → hget (job x.id) retry_count d ≡ some (num 0)
      → n ≤ max_retry_count
      → Waiting n d (fail_times n d)
  Waiting-fail_times zero d h le = record { attempts = h; lists = λ k. refl; counters = λ f. refl }
  Waiting-fail_times (suc n) d h le =
      let e = fail_times n d in
      let earlier = Waiting-fail_times n d h (omega arith) in
      let step =
        Requeued-requeue c fails (loaded_at e) (message n) (clock n) max_retry_count e
          (ground (arith, earlier.attempts)) in
      record {
        attempts = step.attempts ∙ ap (λ v. some (increment v)) earlier.attempts;
        lists = λ k. step.lists k ∙ earlier.lists k;
        counters = λ f. step.counters f ∙ earlier.counters f;
      }

  -- A job that starts with the retry count 0 and fails on every attempt: nothing is put into the dead letter
  -- queue by the first `max_retry_count` failures, and the next one appends exactly one entry, with
  -- that number of retries, and counts the job as failed and done once.
  pub fail_times_buried :
      (d : Db)
      → hget (job x.id) retry_count d ≡ some (num 0)
      → IsCount (hget (group_meta x.group_id) failed_count d)
      → IsCount (hget (group_meta x.group_id) done_jobs d)
      → let d' = fail_times (suc max_retry_count) d in
        let last = record x { retry_count = max_retry_count } in
        ((n : ℕ)
          → n ≤ max_retry_count
          → lrange dead_letter_queue (fail_times n d) ≡ lrange dead_letter_queue d)
        × (lrange dead_letter_queue d'
            ≡ lrange dead_letter_queue d
              ++ dead_letter
                  (dead_letter_entry last (message max_retry_count) (clock max_retry_count))
                ∷ [])
        × (counter x.group_id failed_count d' ≡ counter x.group_id failed_count d + 1)
        × (counter x.group_id done_jobs d' ≡ counter x.group_id done_jobs d + 1)
  unfolding handle_job_failed
  fail_times_buried d h hf hd =
      let n = max_retry_count in
      let e = fail_times n d in
      let waiting = Waiting-fail_times n d h (omega arith) in
      let buried =
        Buried-dead_letter (loaded_at e) (message n) (clock n) e
          (subst IsCount (sym (waiting.counters failed_count)) hf)
          (subst IsCount (sym (waiting.counters done_jobs)) hd) in
      let over : ltb (to_number (hget (job x.id) retry_count e)) n ≡ false =
        ground (arith, waiting.attempts) in
      let tries : to_number (hget (job x.id) retry_count e) ≡ n =
        ground (arith, waiting.attempts) in
      (
        λ k le. (Waiting-fail_times k d h le).lists dead_letter_queue,
        rw (over, handle_job_failed)
            (buried.listed
              ∙ ap₂
                  (λ (vs : List Value) (k : ℕ).
                    vs
                    ++ dead_letter
                        (dead_letter_entry (record x { retry_count = k }) (message n) (clock n))
                      ∷ [])
                  (waiting.lists dead_letter_queue) tries),
        rw (over, handle_job_failed)
            (ground (arith, buried.failures, waiting.counters failed_count)),
        rw (over, handle_job_failed) (ground (arith, buried.finished, waiting.counters done_jobs)),
      )
