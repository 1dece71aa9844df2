-- ===== src/WorkerPool/Completion/Results.antt =====
-- The completion of a job, and of a group with its last job (WorkerPoolService.ts, handleJobComplete).
use nestjs_playground.Prelude.{
  ℕ, ◌+◌, ◌≤◌, true, if◌then◌else◌, String, none, some, List, [], ◌∷◌, ◌++◌, map, ◌≡◌, ◌≢◌, ap, ap₂,
  subst, sym, ◌∙◌, refl, inr, arith,
}
use nestjs_playground.Watcher.StateMachine.{aggregating, completed}
use nestjs_playground.Model.{
  Value, str, group_status, job_result, JobProcessorResponse, to_number, IsCount,
  to_number-increment,
}
use nestjs_playground.Keys.{
  Field, group_meta, group_job_results, group_aggregation_lock, done_jobs, total_jobs, status,
  success_count, failed_count, processor_type,
}
use nestjs_playground.Redis.{Redis, Db, hget, get, lrange, store_laws}
use nestjs_playground.Aggregator.Scripts.{counter, record_job_result, record_writes, ack}
use nestjs_playground.Aggregator.Scripts.Counting.{ack_lem, record_writes-Recorded}
use nestjs_playground.Aggregator.Scripts.Frame.{ack-Acked, record_job_result-Kept}
use nestjs_playground.Aggregator.Service.{
  Aggregator, AggregationContext, context_of, resolve_aggregator, results_of, job_results,
  get_result,
}
use nestjs_playground.Aggregator.Service.Finalization.{finalize_group_lem}
use nestjs_playground.Aggregator.StatusWrites.{status_of}
use nestjs_playground.Congestion.Control.{reset_group_stats}
use nestjs_playground.Congestion.Control.Frame.{Beside-reset}
use nestjs_playground.WorkerPool.Completion.{handle_job_complete}

pub results_of-append :
    (vs ws : List Value) → results_of (vs ++ ws) ≡ results_of vs ++ results_of ws
results_of-append [] ws = refl
results_of-append (job_result x ∷ vs) ws = ap (◌∷◌ x) (results_of-append vs ws)
results_of-append (_ ∷ vs) ws = ground (arith, results_of-append vs ws)

module _ ⦃r : Redis⦄ where
  -- The counters of a group once one more result is recorded.
  abbrev pub context_with : JobProcessorResponse → Db → AggregationContext
  context_with x d =
      let successes = counter x.group_id success_count d in
      let failures = counter x.group_id failed_count d in
      record {
        group_id = x.group_id;
        total_jobs = counter x.group_id total_jobs d;
        success_count = if x.success then successes + 1 else successes;
        failed_count = if x.success then failures else failures + 1;
      }

  -- The store in which `finalizeGroup` runs: the result recorded, the job acknowledged, the statistics
  -- of the group forgotten.
  abbrev settled : JobProcessorResponse → ℕ → Db → Db
  settled x now d =
      reset_group_stats x.group_id (ack x.job_id x.group_id (record_job_result x now d).1).1

  hget-settled :
      (x : JobProcessorResponse) (now : ℕ) (d : Db) (f : Field)
      → hget (group_meta x.group_id) f (settled x now d)
        ≡ hget (group_meta x.group_id) f (ack x.job_id x.group_id (record_job_result x now d).1).1
  hget-settled x now d f = Beside-reset x.group_id _ _ _ (λ p. cc) (λ p. cc)

  lrange-settled :
      (x : JobProcessorResponse) (now : ℕ) (d : Db)
      → lrange (group_job_results x.group_id) (settled x now d)
        ≡ lrange (group_job_results x.group_id) d ++ job_result x ∷ []
  unfolding reset_group_stats record_job_result
  lrange-settled x now d =
      let recorded = record_writes-Recorded x now d in
      let acked = ack-Acked x.job_id x.group_id (record_writes x now d) in
      simp store_laws (ground (arith, acked.lists (group_job_results x.group_id), recorded.listed))

  lock-settled :
      (x : JobProcessorResponse) (now : ℕ) (d : Db)
      → get (group_aggregation_lock x.group_id) (settled x now d)
        ≡ get (group_aggregation_lock x.group_id) d
  unfolding reset_group_stats
  lock-settled x now d =
      let k = group_aggregation_lock x.group_id in
      simp store_laws (
        ground (
          arith,
          (ack-Acked x.job_id x.group_id (record_job_result x now d).1).strings k,
          (record_job_result-Kept x now d).strings k,
        ))

  counter-settled :
      (x : JobProcessorResponse) (now : ℕ) (d : Db) (f : Field)
      → status ≢ f
      → done_jobs ≢ f
      → counter x.group_id f (settled x now d) ≡ counter x.group_id f (record_writes x now d)
  unfolding record_job_result
  counter-settled x now d f h i = ap to_number (
      hget-settled x now d f
      ∙ (ack-Acked x.job_id x.group_id (record_writes x now d)).hashes (group_meta x.group_id) f h
          i)

  context_of-settled :
      (x : JobProcessorResponse) (now : ℕ) (d : Db)
      → IsCount (hget (group_meta x.group_id) success_count d)
      → IsCount (hget (group_meta x.group_id) failed_count d)
      → context_of x.group_id (settled x now d) ≡ context_with x d
  unfolding context_of
  context_of-settled x now d hs hf =
      let w = record_writes-Recorded x now d in
      let s = to_number-increment (hget (group_meta x.group_id) success_count d) hs in
      let f = to_number-increment (hget (group_meta x.group_id) failed_count d) hf in
      rw
        (
          counter-settled x now d total_jobs (λ p. cc) (λ p. cc),
          counter-settled x now d success_count (λ p. cc) (λ p. cc),
          counter-settled x now d failed_count (λ p. cc) (λ p. cc),
          w.total,
          w.successes,
          w.failures,
        )
        (ground (arith, s, f))

  -- The acknowledgement of the last job, after the recording of its result.
  ack-last :
      (x : JobProcessorResponse) (now : ℕ) (d : Db)
      → IsCount (hget (group_meta x.group_id) done_jobs d)
      → counter x.group_id total_jobs d ≤ counter x.group_id done_jobs d + 1
      → let (complete, d') = ack x.job_id x.group_id (record_job_result x now d).1 in
        (complete ≡ true) × (status_of x.group_id d' ≡ some (group_status aggregating))
  ack-last x now d h last =
      let g = x.group_id in
      let e = (record_job_result x now d).1 in
      let kept = (record_job_result-Kept x now d).hashes in
      let done = kept (group_meta g) done_jobs (λ p. cc) (λ p. cc) (λ p. cc) (λ p. cc) in
      let total = kept (group_meta g) total_jobs (λ p. cc) (λ p. cc) (λ p. cc) (λ p. cc) in
      let (counted, ends, set_to, marked) = ack_lem x.job_id g e (subst IsCount (sym done) h) in
      let complete = ends.1 (ground (arith, done, total)) in (complete, rw complete at set_to)

-- `handleJobComplete` of the last job of a group (the counter of done jobs reaches the number of jobs
-- with it), when the aggregation lock is free, an aggregator is found and nobody else acts: whatever
-- the status of the group was, it is COMPLETED afterwards, and `getResult` yields the text of the
-- aggregator's reduction of all results, this one last, with the counters that include it.
pub handle_job_complete_ends_group :
    ⦃r : Redis⦄ {U : Type 0} (stringify : U → String) (aggregators : List (Aggregator U))
    (sleep : Db → Db) (token : String) (ttl retries : ℕ) (x : JobProcessorResponse) (now : ℕ)
    (d : Db) (a : Aggregator U)
    → IsCount (hget (group_meta x.group_id) success_count d)
    → IsCount (hget (group_meta x.group_id) failed_count d)
    → IsCount (hget (group_meta x.group_id) done_jobs d)
    → counter x.group_id total_jobs d ≤ counter x.group_id done_jobs d + 1
    → get (group_aggregation_lock x.group_id) d ≡ none
    → resolve_aggregator aggregators (hget (group_meta x.group_id) processor_type d) ≡ some a
    → let d' = handle_job_complete stringify aggregators sleep token ttl retries x now d in
      (status_of x.group_id d' ≡ some (group_status completed))
      × (get_result x.group_id d'
          ≡ some (
              str (
                stringify (
                  a.reduce
                    (map a.map_result (job_results x.group_id d ++ x ∷ []))
                    (context_with x d)))))
unfolding handle_job_complete
handle_job_complete_ends_group stringify aggregators sleep token ttl retries x now d a hs hf hd last
      free found =
    let g = x.group_id in
    let e = settled x now d in
    let (complete, s) = ack-last x now d hd last in
    let kept = (record_job_result-Kept x now d).hashes in
    let results =
      ap results_of (lrange-settled x now d)
      ∙ results_of-append (lrange (group_job_results g) d) (job_result x ∷ []) in
    let typed =
      hget-settled x now d processor_type
      ∙ (ack-Acked x.job_id g (record_job_result x now d).1).hashes (group_meta g) processor_type
          (λ p. cc) (λ p. cc)
      ∙ kept (group_meta g) processor_type (λ p. cc) (λ p. cc) (λ p. cc) (λ p. cc) in
    let (answer, ended, stored) =
      finalize_group_lem stringify aggregators sleep g token ttl retries now e a aggregating
        (lock-settled x now d ∙ free) (ap (resolve_aggregator aggregators) typed ∙ found) (inr refl)
        (hget-settled x now d status ∙ s) in
    rw (complete, handle_job_complete)
      (
        ended,
        stored
            ∙ ap₂
                (λ (xs : List JobProcessorResponse) (c : AggregationContext).
                  some (str (stringify (a.reduce (map a.map_result xs) c))))
                results (context_of-settled x now d hs hf),
      )
