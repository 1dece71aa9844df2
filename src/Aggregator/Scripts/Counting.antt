-- ===== src/Aggregator/Scripts/Counting.antt =====
-- The counters of a group: ack.lua and record-job-result.lua.
use nestjs_playground.Prelude.{
  ℕ, ◌+◌, ◌≤◌, ◌<◌, true, leb, if◌then◌else◌, String, some, [], ◌∷◌, ◌++◌, ◌≡◌, ap, ◌∙◌, ◌↔◌, inl,
  inr, Bool-cases, arith,
}
use nestjs_playground.Watcher.StateMachine.{aggregating}
use nestjs_playground.Model.{
  group_status, job_status, job_completed, job_result, JobProcessorResponse, to_number, increment,
  IsCount, to_number-increment,
}
use nestjs_playground.Keys.{
  group_meta, group_job_results, job, status, total_jobs, done_jobs, success_count, failed_count,
}
use nestjs_playground.Redis.{Redis, Db, hget, lrange, store_laws}
use nestjs_playground.Aggregator.Scripts.{
  counter, ack_writes, ack, record_writes, record_job_result,
}

module _ ⦃r : Redis⦄ where
  done_counted :
      (j g : String) (d : Db)
      → hget (group_meta g) done_jobs (ack_writes j g d)
        ≡ some (increment (hget (group_meta g) done_jobs d))
  unfolding ack_writes
  done_counted j g d = simp store_laws (ground arith)

  total_kept :
      (j g : String) (d : Db)
      → hget (group_meta g) total_jobs (ack_writes j g d) ≡ hget (group_meta g) total_jobs d
  unfolding ack_writes
  total_kept j g d = simp store_laws (ground arith)

  status_kept :
      (j g : String) (d : Db)
      → (hget (group_meta g) status (ack_writes j g d) ≡ hget (group_meta g) status d)
        × (hget (job j) status (ack_writes j g d) ≡ some (job_status job_completed))
  unfolding ack_writes
  status_kept j g d = (simp store_laws (ground arith), simp store_laws (ground arith))

  -- Where the counter of done jobs is a count: an acknowledgement adds one to it, marks the job completed,
  -- and says true exactly when the counter reaches the number of jobs; it then sets the group's status
  -- AGGREGATING, whatever it was, and else leaves it.
  pub ack_lem :
      (j g : String) (d : Db)
      → IsCount (hget (group_meta g) done_jobs d)
      → let (complete, d') = ack j g d in
        (counter g done_jobs d' ≡ counter g done_jobs d + 1)
        × ((complete ≡ true) ↔ (counter g total_jobs d ≤ counter g done_jobs d + 1))
        × (hget (group_meta g) status d'
            ≡ (if complete then some (group_status aggregating) else hget (group_meta g) status d))
        × (hget (job j) status d' ≡ some (job_status job_completed))
  unfolding ack
  ack_lem j g d h =
      let d' = ack_writes j g d in
      let counted =
        ap to_number (done_counted j g d)
        ∙ to_number-increment (hget (group_meta g) done_jobs d) h in
      let total = ap to_number (total_kept j g d) in
      let (kept, marked) = status_kept j g d in
      elim (Bool-cases (leb (counter g total_jobs d') (counter g done_jobs d'))) [
        | inl e ↦
            rw (e, ack)
              (
                simp store_laws (ground (arith, counted)),
                ground (arith, counted, total),
                simp store_laws (ground arith),
                simp store_laws (ground (arith, marked)),
              )
        | inr e ↦
            rw (e, ack) (ground (arith, counted), ground (arith, counted, total), kept, marked)
      ]

  -- What `record_writes` leaves in the three counters and in the list of results.
  pub record Recorded (x : JobProcessorResponse) (d e : Db) : Type 0 where
    pub successes : hget (group_meta x.group_id) success_count e ≡ (
        if x.success
        then some (increment (hget (group_meta x.group_id) success_count d))
        else hget (group_meta x.group_id) success_count d)
    pub failures : hget (group_meta x.group_id) failed_count e ≡ (
        if x.success
        then hget (group_meta x.group_id) failed_count d
        else some (increment (hget (group_meta x.group_id) failed_count d)))
    pub total :
        hget (group_meta x.group_id) total_jobs e ≡ hget (group_meta x.group_id) total_jobs d
    pub listed :
        lrange (group_job_results x.group_id) e
        ≡ lrange (group_job_results x.group_id) d ++ job_result x ∷ []

  pub record_writes-Recorded :
      (x : JobProcessorResponse) (now : ℕ) (d : Db) → Recorded x d (record_writes x now d)
  unfolding record_writes
  record_writes-Recorded x now d = elim (Bool-cases x.success) [
    | inl e ↦ record {
      successes = rw e (simp store_laws (ground arith));
      failures = rw e (simp store_laws (ground arith));
      total = rw e (simp store_laws (ground arith));
      listed = rw e (simp store_laws (ground arith));
    }
    | inr e ↦ record {
      successes = rw e (simp store_laws (ground arith));
      failures = rw e (simp store_laws (ground arith));
      total = rw e (simp store_laws (ground arith));
      listed = rw e (simp store_laws (ground arith));
    }
  ]

  -- Where both counters are counts: `recordJobResult` adds one to the counter that the result's success
  -- selects and leaves the other, appends the result to the group's list, returns the new counters, and
  -- says that the group is complete exactly when it has jobs and the two together reach their number.
  pub record_job_result_lem :
      (x : JobProcessorResponse) (now : ℕ) (d : Db)
      → IsCount (hget (group_meta x.group_id) success_count d)
      → IsCount (hget (group_meta x.group_id) failed_count d)
      → let (out, d') = record_job_result x now d in
        let successes = counter x.group_id success_count d in
        let failures = counter x.group_id failed_count d in
        let total = counter x.group_id total_jobs d in
        (out.success_count ≡ (if x.success then successes + 1 else successes))
        × (out.failed_count ≡ (if x.success then failures else failures + 1))
        × ((out.is_group_complete ≡ true) ↔ ((total ≤ successes + failures + 1) × (0 < total)))
        × (lrange (group_job_results x.group_id) d'
            ≡ lrange (group_job_results x.group_id) d ++ job_result x ∷ [])
  unfolding record_job_result
  record_job_result_lem x now d hs hf =
      let w = record_writes-Recorded x now d in
      let s = to_number-increment (hget (group_meta x.group_id) success_count d) hs in
      let f = to_number-increment (hget (group_meta x.group_id) failed_count d) hf in
      (
        ground (arith, w.successes, s),
        ground (arith, w.failures, f),
        ground (arith, w.successes, w.failures, w.total, s, f),
        w.listed,
      )
